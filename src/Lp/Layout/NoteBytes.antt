-- ===== src/Lp/Layout/NoteBytes.antt =====
-- The notes of the core file as a list, and the bytes that WriteCorePrStatus, WriteCoreAUXV,
-- WriteNtFile and AlignNoteSegment write of them
-- (opencore/src/main/cpp/opencore/lp64/opencore.cpp and lp32/opencore.cpp).
use open_core_sdk.Prelude.{
  ℕ, ◌+◌, ◌-◌, ◌*◌, ◌%◌, ◌^◌, ◌≤◌, ◌<◌, ◌≡◌, sym, ap, ◌∙◌, arith, true, List, [], ◌∷◌, ◌++◌,
  append-nil, append_assoc, map, length, length-append, length-replicate, replicate, replicate-add,
  take, take-length, All,
}
use open_core_sdk.Elf.{class32, class64, ElfClass, word_size, auxv_size, int, nt_auxv, nt_file}
use open_core_sdk.Elf.Encode.{encode_nhdr, length-encode_auxv, le, encode_auxv, encode_file}
use open_core_sdk.Elf.NoteList.{Note, IsNote, encode_note, encoded, encoded-append}
use open_core_sdk.Kernel.{Kernel}
use open_core_sdk.Stream.Append.{concat, concat-append, length-concat-map, length-concat-append}
use open_core_sdk.Lp.{OpencoreImpl}
use open_core_sdk.Lp.Write.{
  auxv_writes, nt_file_writes, file_desc_size, page_size_word, name_bytes, core_nhdr, core_magic,
}
use open_core_sdk.Lp.Dump.{Arch}
use open_core_sdk.Lp.Layout.{words, names_size, file_part}
use open_core_sdk.Lp.Layout.Sizes.{words_int}
use open_core_sdk.Lp.Layout.Notes.{length-note, length-auxv_writes, length-nt_file_writes}
use open_core_sdk.Lp.Layout.NoteList.{core_note_lem, core_note, core_run_lem}
use open_core_sdk.Lp.Layout.File.{NotesLaws, IsReady, placed, note_writes}
use open_core_sdk.Lp.Layout.Front.{note_bytes, padding, padding_lem, length-placed}

pub auxv_whole : (c : ElfClass) (n : ℕ) → auxv_size c * n % 4 ≡ 0
auxv_whole class32 n = omega arith
auxv_whole class64 n = omega arith

-- The size of NT_FILE's contents fits its member, and is whole words.
pub file_int :
    (c : ElfClass) (phnum fileslen : ℕ)
    → phnum + 1 < 2 ^ 16
    → fileslen + 3 < 2 ^ 31
    → (int (file_desc_size c phnum fileslen) ≡ file_desc_size c phnum fileslen)
      × (file_desc_size c phnum fileslen < 2 ^ 32)
      × (file_desc_size c phnum fileslen % 4 ≡ 0)
file_int class32 phnum fileslen h hf = (
  omega (arith, words_int class32 fileslen hf),
  omega (arith, words_int class32 fileslen hf),
  omega (arith, words_int class32 fileslen hf),
)
file_int class64 phnum fileslen h hf = (
  omega (arith, words_int class64 fileslen hf),
  omega (arith, words_int class64 fileslen hf),
  omega (arith, words_int class64 fileslen hf),
)

-- The notes that WriteCorePrStatus writes, and that it writes no other bytes.
pub record ThreadNotes (arch : Arch) : Type 0 where
  pub note_list : Kernel → OpencoreImpl → List Note
  pub list_lem :
      (k : Kernel) (s : OpencoreImpl) → concat (arch.prstatus_writes k s) ≡ encoded (note_list k s)
  pub list_IsNote : (k : Kernel) (s : OpencoreImpl) → All IsNote (note_list k s)

-- NT_AUXV.
abbrev pub auxv_note : ElfClass → OpencoreImpl → Note
auxv_note c s = core_note nt_auxv (concat (map (encode_auxv c) (take s.auxvnum s.auxv)))

-- The contents of NT_FILE as WriteNtFile writes them; the padding behind fills up the last word.
abbrev pub file_calls : ElfClass → OpencoreImpl → List (List ℕ)
file_calls c s =
    le (word_size c) (length s.phdr)
    ∷ page_size_word c s
    ∷ (map (encode_file c) (take (length s.phdr) s.file_table)
        ++ map name_bytes (take (length s.phdr) s.maps))

abbrev pub file_note : ElfClass → OpencoreImpl → Note
file_note c s =
    core_note nt_file (concat (file_calls c s) ++ replicate (words s.fileslen - s.fileslen) 0)

module _ (arch : Arch) (laws : NotesLaws arch) (lists : ThreadNotes arch) (k : Kernel)
    (s : OpencoreImpl) (r : IsReady arch.elf_class laws.notes s) (opens : k.opens_mem s.pid ≡ true)
    (short : auxv_size arch.elf_class * s.auxvnum < 2 ^ 32) where
  open arch use {elf_class as c}

  -- Every note of the file.
  abbrev pub all_notes : List Note
  all_notes =
      lists.note_list k (placed c s) ++ (auxv_note c (placed c s) ∷ file_note c (placed c s) ∷ [])

  abbrev pub gap : ℕ
  gap = words s.fileslen - s.fileslen

  abbrev pub zeros : List ℕ
  zeros = replicate (padding arch laws k s r - gap) 0

  pub auxv_size_lem :
      length (concat (map (encode_auxv c) (take s.auxvnum s.auxv))) ≡ auxv_size c * s.auxvnum
  auxv_size_lem =
      length-concat-map (auxv_size c) (encode_auxv c) (take s.auxvnum s.auxv) (length-encode_auxv c)
      ∙ ap (λ (n : ℕ). auxv_size c * n)
          (ap length (ap (λ n. take n s.auxv) (sym r.auxv_read) ∙ take-length s.auxv) ∙ r.auxv_read)

  file_writes_size :
      length (concat (nt_file_writes c (placed c s)))
      ≡ file_part c (length (placed c s).phdr) (names_size s.maps)
  file_writes_size =
      length-nt_file_writes c (placed c s) (r.files ∙ sym (length-placed arch laws k s r))
        (r.mapped ∙ sym (length-placed arch laws k s r))

  pub file_size_lem :
      length (concat (file_calls c (placed c s)) ++ replicate gap 0)
      ≡ file_desc_size c (length (placed c s).phdr) s.fileslen
  unfolding nt_file_writes
  file_size_lem = omega (
    arith,
    length-note (int (file_desc_size c (length (placed c s).phdr) s.fileslen)) nt_file
        (file_calls c (placed c s)),
    file_writes_size,
    words_int c s.fileslen r.names_int,
    length-append (concat (file_calls c (placed c s))) (replicate gap 0),
    length-replicate {A = ℕ} gap 0,
    r.names,
  )

  gap_fits : gap ≤ padding arch laws k s r
  gap_fits = omega (arith, padding_lem arch laws k s r)

  threads_part :
      concat (arch.prstatus_writes k (placed c s)) ≡ encoded (lists.note_list k (placed c s))
  threads_part = lists.list_lem k (placed c s)

  auxv_part_lem :
      (rest : List ℕ)
      → concat (auxv_writes c (placed c s)) ++ rest ≡ encode_note (auxv_note c (placed c s)) ++ rest
  unfolding auxv_writes
  auxv_part_lem rest =
      append_assoc (encode_nhdr (core_nhdr size nt_auxv)) (core_magic ++ entries) rest
      ∙ ap (λ t. encode_nhdr (core_nhdr size nt_auxv) ++ t) (append_assoc core_magic entries rest)
      ∙ core_note_lem size nt_auxv entries rest (auxv_size_lem ∙ sym auxv_int)
    where
      size : ℕ
      size = int (auxv_size c * s.auxvnum)

      entries : List ℕ
      entries = concat (map (encode_auxv c) (take s.auxvnum s.auxv))

      auxv_int : int (auxv_size c * s.auxvnum) ≡ auxv_size c * s.auxvnum
      auxv_int = omega (arith, short)

  file_part_lem :
      (rest : List ℕ)
      → concat (nt_file_writes c (placed c s)) ++ (replicate gap 0 ++ rest)
        ≡ encode_note (file_note c (placed c s)) ++ rest
  unfolding nt_file_writes
  file_part_lem rest =
      core_run_lem (int (file_desc_size c (length (placed c s).phdr) s.fileslen)) nt_file
        (file_calls c (placed c s)) (replicate gap 0) rest
        (file_size_lem ∙ sym (file_int c _ s.fileslen half r.names_int).0)
    where
      half : length (placed c s).phdr + 1 < 2 ^ 16
      half = omega (arith, length-placed arch laws k s r, r.table_half)

  pub notes_lem : concat (note_writes arch laws k s) ≡ encoded all_notes ++ zeros
  notes_lem =
      concat-append threads (auxvs ++ (files ++ fill_calls))
      ∙ ap (λ t. concat threads ++ t) (concat-append auxvs (files ++ fill_calls))
      ∙ ap (λ t. concat threads ++ (concat auxvs ++ t)) (concat-append files fill_calls)
      ∙ ap (λ t. concat threads ++ (concat auxvs ++ (concat files ++ t))) fill
      ∙ ap (λ t. concat threads ++ (concat auxvs ++ t)) (file_part_lem zeros)
      ∙ ap (λ t. concat threads ++ t)
          (auxv_part_lem (encode_note (file_note c (placed c s)) ++ zeros))
      ∙ ap (λ t. t ++ (encode_note a ++ (encode_note b ++ zeros))) threads_part
      ∙ ap (λ t. encoded ns ++ (encode_note a ++ (t ++ zeros))) (sym (append-nil (encode_note b)))
      ∙ ap (λ t. encoded ns ++ t) (sym (append_assoc (encode_note a) (encode_note b ++ []) zeros))
      ∙ sym (append_assoc (encoded ns) (encoded (a ∷ b ∷ [])) zeros)
      ∙ ap (λ t. t ++ zeros) (sym (encoded-append ns (a ∷ b ∷ [])))
    where
      threads : List (List ℕ)
      threads = arch.prstatus_writes k (placed c s)

      auxvs : List (List ℕ)
      auxvs = auxv_writes c (placed c s)

      files : List (List ℕ)
      files = nt_file_writes c (placed c s)

      fill_calls : List (List ℕ)
      fill_calls = replicate (padding arch laws k s r) 0 ∷ []

      ns : List Note
      ns = lists.note_list k (placed c s)

      a : Note
      a = auxv_note c (placed c s)

      b : Note
      b = file_note c (placed c s)

      fill : concat fill_calls ≡ replicate gap 0 ++ zeros
      fill =
          append-nil (replicate (padding arch laws k s r) 0)
          ∙ sym (
              replicate-add gap (padding arch laws k s r - gap) 0
              ∙ ap (λ n. replicate n 0)
                  (let e : gap + (padding arch laws k s r - gap) ≡ padding arch laws k s r =
                      omega (arith, gap_fits) in
                    e))

  length-note_writes :
      length (concat (note_writes arch laws k s))
      ≡ note_bytes arch laws k s r - gap + padding arch laws k s r
  length-note_writes = omega (
    arith,
    r.extra,
    r.names,
    gap_fits,
    length-concat-append threads (auxvs ++ (files ++ fill_calls)),
    laws.writes_size k (placed c s),
    length-concat-append auxvs (files ++ fill_calls),
    length-auxv_writes c (placed c s) r.auxv_read,
    length-concat-append files fill_calls,
    file_writes_size,
    ap (λ (t : ℕ). file_part c t (names_size s.maps)) (length-placed arch laws k s r),
    length-append {A = ℕ} (replicate (padding arch laws k s r) 0) [],
    length-replicate {A = ℕ} (padding arch laws k s r) 0,
  )
    where
      threads : List (List ℕ)
      threads = arch.prstatus_writes k (placed c s)

      auxvs : List (List ℕ)
      auxvs = auxv_writes c (placed c s)

      files : List (List ℕ)
      files = nt_file_writes c (placed c s)

      fill_calls : List (List ℕ)
      fill_calls = replicate (padding arch laws k s r) 0 ∷ []

  pub length-all_notes : length (encoded all_notes) ≡ note_bytes arch laws k s r
  length-all_notes = omega (
    arith,
    ap length notes_lem,
    length-append (encoded all_notes) zeros,
    length-replicate {A = ℕ} (padding arch laws k s r - gap) 0,
    gap_fits,
    length-note_writes,
  )
