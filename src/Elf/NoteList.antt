-- ===== src/Elf/NoteList.antt =====
-- A row of ELF notes and its reader, as a debugger has it: header, name, contents, and the next note
-- on the next word.
use open_core_sdk.Prelude.{
  ℕ, zero, suc, ◌+◌, ◌*◌, ◌/◌, ◌%◌, ◌^◌, ◌≤◌, ◌<◌, ◌≡◌, refl, sym, ap, ◌∙◌, arith, List, [], ◌∷◌,
  ◌++◌, append_assoc, map, Option, none, some, leb, le→leb, if◌then◌else◌, length, length-append,
  take, drop, drop-append, take-append, All,
}
use mathlib.Core.Option
use open_core_sdk.Elf.{Nhdr}
use open_core_sdk.Elf.Encode.{le, encode_nhdr, length-encode_nhdr}
use open_core_sdk.Elf.Decode.{field, from_le-le}
use open_core_sdk.Stream.Append.{concat}

-- A note as it is read: `name` is filled up to whole words.
pub record Note : Type 0 where
  pub namesz : ℕ
  pub type : ℕ
  pub name : List ℕ
  pub desc : List ℕ

abbrev pub words : ℕ → ℕ
words n = (n + 3) / 4 * 4

unfoldable pub encode_note : Note → List ℕ
encode_note n =
    encode_nhdr (record { n_namesz = n.namesz; n_descsz = length n.desc; n_type = n.type })
    ++ (n.name ++ n.desc)

-- The note at the front of the bytes, and how far it reaches.
unfoldable pub read_note : List ℕ → Note
read_note bs = record {
  namesz = field 0 4 bs;
  type = field 8 4 bs;
  name = take (words (field 0 4 bs)) (drop 12 bs);
  desc = take (field 4 4 bs) (drop (words (field 0 4 bs)) (drop 12 bs));
}

unfoldable pub note_reach : List ℕ → ℕ
note_reach bs = 12 + words (field 0 4 bs) + words (field 4 4 bs)

-- All the notes; `none` if one reaches over the end. Each takes a byte at least, so the length of
-- the bytes is fuel enough.
unfoldable pub read_notes_in : ℕ → List ℕ → Option (List Note)
read_notes_in fuel [] = some []
read_notes_in zero (b ∷ bs) = none
read_notes_in (suc fuel) (b ∷ bs) =
    let rest = read_notes_in fuel (drop (note_reach (b ∷ bs)) (b ∷ bs)) in
    if leb (note_reach (b ∷ bs)) (length (b ∷ bs))
    then Option.map (λ ns. read_note (b ∷ bs) ∷ ns) rest
    else none

abbrev pub read_notes : List ℕ → Option (List Note)
read_notes bs = read_notes_in (length bs) bs

-- Whole words, and sizes that fit their members.
pub record IsNote (n : Note) : Type 0 where
  pub named : length n.name ≡ words n.namesz
  pub namesz_word : n.namesz < 2 ^ 32
  pub type_word : n.type < 2 ^ 32
  pub desc_word : length n.desc < 2 ^ 32
  pub desc_whole : length n.desc % 4 ≡ 0

header_fields :
    (h : Nhdr) (rest : List ℕ)
    → h.n_namesz < 2 ^ 32
    → h.n_descsz < 2 ^ 32
    → h.n_type < 2 ^ 32
    → (field 0 4 (encode_nhdr h ++ rest) ≡ h.n_namesz)
      × (field 4 4 (encode_nhdr h ++ rest) ≡ h.n_descsz)
      × (field 8 4 (encode_nhdr h ++ rest) ≡ h.n_type)
      × (drop 12 (encode_nhdr h ++ rest) ≡ rest)
unfolding encode_nhdr le
header_fields h rest name desc type = (
  from_le-le 4 h.n_namesz _ name,
  from_le-le 4 h.n_descsz _ desc,
  from_le-le 4 h.n_type _ type,
  refl,
)

module _ (n : Note) (rest : List ℕ) where
  abbrev header : Nhdr
  header = record { n_namesz = n.namesz; n_descsz = length n.desc; n_type = n.type }

  abbrev bytes : List ℕ
  bytes = encode_nhdr header ++ (n.name ++ (n.desc ++ rest))

  pub bytes_lem : encode_note n ++ rest ≡ bytes
  unfolding encode_note
  bytes_lem =
      append_assoc (encode_nhdr header) (n.name ++ n.desc) rest
      ∙ ap (λ t. encode_nhdr header ++ t) (append_assoc n.name n.desc rest)

  read_note-encode_note : IsNote n → read_note bytes ≡ n
  unfolding read_note
  read_note-encode_note v =
      let (name, desc, type, tail) =
        header_fields header (n.name ++ (n.desc ++ rest)) v.namesz_word v.desc_word v.type_word in
      rw
        (
          name,
          desc,
          type,
          tail,
          take-append (words n.namesz) n.name (n.desc ++ rest) (sym v.named),
          drop-append (words n.namesz) n.name (n.desc ++ rest) (sym v.named),
          take-append (length n.desc) n.desc rest refl,
        )
        refl

  note_reach-encode_note : IsNote n → note_reach bytes ≡ length (encode_note n)
  unfolding note_reach encode_note
  note_reach-encode_note v =
      let (name, desc, type, tail) =
        header_fields header (n.name ++ (n.desc ++ rest)) v.namesz_word v.desc_word v.type_word in
      omega (
        arith,
        name,
        desc,
        length-append (encode_nhdr header) (n.name ++ n.desc),
        length-append n.name n.desc,
        length-encode_nhdr header,
        v.named,
        v.desc_whole,
      )

read_step :
    (fuel : ℕ) (bs : List ℕ)
    → 0 < length bs
    → note_reach bs ≤ length bs
    → read_notes_in (suc fuel) bs
      ≡ Option.map (λ ns. read_note bs ∷ ns) (read_notes_in fuel (drop (note_reach bs) bs))
unfolding read_notes_in
read_step fuel [] some_bytes inside = absurd (omega arith)
read_step fuel (b ∷ bs) some_bytes inside =
    rw (le→leb (note_reach (b ∷ bs)) (length (b ∷ bs)) inside) refl

length-encode_note : (n : Note) → 12 ≤ length (encode_note n)
unfolding encode_note
length-encode_note n =
    let h : Nhdr = record { n_namesz = n.namesz; n_descsz = length n.desc; n_type = n.type } in
    omega (arith, length-append (encode_nhdr h) (n.name ++ n.desc), length-encode_nhdr h)

read_notes_in-encode :
    (fuel : ℕ) (ns : List Note)
    → All IsNote ns
    → length (concat (map encode_note ns)) ≤ fuel
    → read_notes_in fuel (concat (map encode_note ns)) ≡ some ns
read_notes_in-encode fuel [] v enough = unfold read_notes_in in refl
read_notes_in-encode zero (n ∷ ns) v enough = absurd (
    omega
      (arith, length-append (encode_note n) (concat (map encode_note ns)), length-encode_note n))
read_notes_in-encode (suc fuel) (n ∷ ns) (v, vs) enough =
    read_step fuel (encode_note n ++ rest) (omega (arith, size, length-encode_note n))
      (omega (arith, size, reach))
    ∙ rw (reach, read, drop-append (length (encode_note n)) (encode_note n) rest refl)
        (ap (Option.map (λ ns. n ∷ ns))
          (read_notes_in-encode fuel ns vs (omega (arith, size, length-encode_note n))))
  where
    rest : List ℕ
    rest = concat (map encode_note ns)

    size : length (encode_note n ++ rest) ≡ length (encode_note n) + length rest
    size = length-append (encode_note n) rest

    reach : note_reach (encode_note n ++ rest) ≡ length (encode_note n)
    reach = ap note_reach (bytes_lem n rest) ∙ note_reach-encode_note n rest v

    read : read_note (encode_note n ++ rest) ≡ n
    read = ap read_note (bytes_lem n rest) ∙ read_note-encode_note n rest v

-- Notes that are written one behind the other are read back as they were.
pub read_notes-encode :
    (ns : List Note) → All IsNote ns → read_notes (concat (map encode_note ns)) ≡ some ns
read_notes-encode ns v = read_notes_in-encode _ ns v (omega arith)

abbrev pub encoded : List Note → List ℕ
encoded ns = concat (map encode_note ns)

pub encoded-append : (xs ys : List Note) → encoded (xs ++ ys) ≡ encoded xs ++ encoded ys
encoded-append [] ys = refl
encoded-append (x ∷ xs) ys =
    ap (λ t. encode_note x ++ t) (encoded-append xs ys)
    ∙ sym (append_assoc (encode_note x) (encoded xs) (encoded ys))

pub IsNote-append : (xs ys : List Note) → All IsNote xs → All IsNote ys → All IsNote (xs ++ ys)
IsNote-append [] ys vx vy = vy
IsNote-append (x ∷ xs) ys (v, vx) vy = (v, IsNote-append xs ys vx vy)
