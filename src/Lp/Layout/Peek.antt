-- ===== src/Lp/Layout/Peek.antt =====
-- The core file as a debugger uses it: the memory of the process, as far as it was dumped.
use open_core_sdk.Prelude.{
  ℕ, zero, suc, ◌+◌, ◌-◌, ◌^◌, ◌≤◌, ◌<◌, ◌≡◌, refl, sym, ap, ◌∙◌, inl, inr, arith, Bool, true,
  false, ◌&&◌, ◌||◌, List, [], ◌∷◌, Option, none, some, ltb, leb, ◌==◌, if◌then◌else◌, Bool-cases,
  get_elem?, take, drop, All, All-get_elem?, subst, some-inj,
}
use open_core_sdk.Elf.{ElfClass, word_bits, pt_load, wrap, Phdr}
use open_core_sdk.Elf.Decode.{read_table}
use open_core_sdk.Kernel.{Kernel}
use open_core_sdk.Lp.{OpencoreImpl}
use open_core_sdk.Lp.Write.{sized_note, place_phdrs}
use open_core_sdk.Lp.Load.Memory.{Reads, memory_bytes}
use open_core_sdk.Lp.Dump.{Arch}
use open_core_sdk.Lp.Layout.File.{NotesLaws, IsReady}
use open_core_sdk.Lp.Layout.Core.{core_bytes, core_phdrs, core_phdrs_lem, segment_is_memory}
use open_core_sdk.Lp.Layout.Table.{read_table-core_bytes}

-- Whether the address is in the part of a segment that the file has.
abbrev pub holds : ℕ → Phdr → Bool
holds a p = p.p_type == pt_load && (leb p.p_vaddr a && ltb a (p.p_vaddr + p.p_filesz))

-- The byte at an address: where the first segment that has it says.
unfoldable pub peek_in : List Phdr → List ℕ → ℕ → Option ℕ
peek_in [] file a = none
peek_in (p ∷ ps) file a =
    let later = peek_in ps file a in
    if holds a p then get_elem? file (p.p_offset + (a - p.p_vaddr)) else later

abbrev pub peek : ElfClass → List ℕ → ℕ → Option ℕ
peek c file = peek_in (read_table c file) file

-- The addresses that were dumped.
abbrev pub is_dumped : List Phdr → ℕ → Bool
is_dumped [] a = false
is_dumped (p ∷ ps) a = holds a p || is_dumped ps a

-- A segment of up to 4 GiB that does not run over the end of the address space.
pub record IsLoad (c : ElfClass) (p : Phdr) : Type 0 where
  pub aligned : p.p_align ≡ 4096
  pub moderate : p.p_memsz ≤ 2 ^ 32
  pub inside : p.p_vaddr + p.p_memsz ≤ 2 ^ word_bits c

place_phdrs-IsLoad :
    (c : ElfClass) (offset : ℕ) (ps : List Phdr)
    → All (IsLoad c) ps
    → (i : ℕ) (q : Phdr) → get_elem? (place_phdrs c offset ps) i ≡ some q
    → IsLoad c q
unfolding place_phdrs
place_phdrs-IsLoad c offset [] v i q found = cc
place_phdrs-IsLoad c offset (p ∷ ps) (v, vs) zero q found =
    subst (IsLoad c) (some-inj found)
      (record { aligned = v.aligned; moderate = v.moderate; inside = v.inside })
place_phdrs-IsLoad c offset (p ∷ ps) (v, vs) (suc i) q found =
    place_phdrs-IsLoad c (wrap c (offset + p.p_filesz)) ps vs i q found

All-of {ℓ} :
    {A : Type ℓ} (P : A → Type 0) (xs : List A)
    → ((i : ℕ) (x : A) → get_elem? xs i ≡ some x → P x)
    → All P xs
All-of P [] h = tt
All-of P (x ∷ xs) h = (h 0 x refl, All-of P xs (λ i. h (suc i)))

get_elem?-take : (n j : ℕ) (bs : List ℕ) → j < n → get_elem? (take n bs) j ≡ get_elem? bs j
get_elem?-take zero j bs h = absurd (omega arith)
get_elem?-take (suc n) j [] h = refl
get_elem?-take (suc n) zero (b ∷ bs) h = refl
get_elem?-take (suc n) (suc j) (b ∷ bs) h = get_elem?-take n j bs (omega arith)

get_elem?-drop : (n j : ℕ) (bs : List ℕ) → get_elem? (drop n bs) j ≡ get_elem? bs (n + j)
get_elem?-drop zero j bs = ap (get_elem? bs) (omega arith)
get_elem?-drop (suc n) j [] = refl
get_elem?-drop (suc n) j (b ∷ bs) =
    get_elem?-drop n j bs
    ∙ ap (get_elem? (b ∷ bs)) (let e : suc (n + j) ≡ suc n + j = omega arith in e)

get_elem?-memory_bytes :
    (mem : ℕ → ℕ) (a n j : ℕ) → j < n → get_elem? (memory_bytes mem a n) j ≡ some (mem (a + j))
unfolding memory_bytes
get_elem?-memory_bytes mem a zero j h = absurd (omega arith)
get_elem?-memory_bytes mem a (suc n) zero h =
    ap (λ t. some (mem t)) (let e : a ≡ a + 0 = omega arith in e)
get_elem?-memory_bytes mem a (suc n) (suc j) h =
    get_elem?-memory_bytes mem (a + 1) n j (omega arith)
    ∙ ap (λ t. some (mem t)) (let e : a + 1 + j ≡ a + suc j = omega arith in e)

-- The file has the memory of a segment where its header says.
abbrev pub Slice : List ℕ → (ℕ → ℕ) → Phdr → Type 0
Slice file mem q = take q.p_filesz (drop q.p_offset file) ≡ memory_bytes mem q.p_vaddr q.p_filesz

peek_at :
    (file : List ℕ) (mem : ℕ → ℕ) (q : Phdr) (a : ℕ)
    → Slice file mem q
    → holds a q ≡ true
    → get_elem? file (q.p_offset + (a - q.p_vaddr)) ≡ some (mem a)
peek_at file mem q a e h =
    sym (get_elem?-drop q.p_offset (a - q.p_vaddr) file)
    ∙ sym (get_elem?-take q.p_filesz (a - q.p_vaddr) (drop q.p_offset file) (bounds h).1)
    ∙ ap (λ bs. get_elem? bs (a - q.p_vaddr)) e
    ∙ get_elem?-memory_bytes mem q.p_vaddr q.p_filesz (a - q.p_vaddr) (bounds h).1
    ∙ ap (λ t. some (mem t))
        (let e' : q.p_vaddr + (a - q.p_vaddr) ≡ a = omega (arith, (bounds h).0) in e')
  where
    bounds : holds a q ≡ true → (q.p_vaddr ≤ a) × (a - q.p_vaddr < q.p_filesz)
    bounds h = ground arith

peek_in-Slice :
    (file : List ℕ) (mem : ℕ → ℕ) (qs : List Phdr) (a : ℕ)
    → All (Slice file mem) qs
    → peek_in qs file a ≡ (if is_dumped qs a then some (mem a) else none)
unfolding peek_in
peek_in-Slice file mem [] a v = refl
peek_in-Slice file mem (q ∷ qs) a (v, vs) = elim (Bool-cases (holds a q)) [
  | inl hit ↦ rw hit (peek_at file mem q a v hit)
  | inr miss ↦ rw miss (peek_in-Slice file mem qs a vs)
]

module _ (arch : Arch) (laws : NotesLaws arch) (k : Kernel) (s : OpencoreImpl)
    (r : IsReady arch.elf_class laws.notes s) (opens : k.opens_mem s.pid ≡ true) where
  open arch use {elf_class as c}

  pub core_phdrs-IsLoad : All (IsLoad c) s.phdr → All (IsLoad c) (core_phdrs arch k s)
  core_phdrs-IsLoad loads = All-of (IsLoad c) (core_phdrs arch k s) (λ i q found.
      place_phdrs-IsLoad c _ s.phdr loads i q
        (ap (λ ps. get_elem? ps i) (sym (core_phdrs_lem arch laws k s r opens)) ∙ found))

  -- Every segment's bytes are where its header says, all in the one file.
  pub core_phdrs-Slice :
      (mem : ℕ → ℕ)
      → All (Reads (k.pread s.pid) mem) (core_phdrs arch k s)
      → All (IsLoad c) s.phdr
      → All (Slice (core_bytes arch k s) mem) (core_phdrs arch k s)
  core_phdrs-Slice mem reads loads =
      All-of (Slice (core_bytes arch k s) mem) (core_phdrs arch k s) (λ i q found.
        let v = All-get_elem? (IsLoad c) _ i (core_phdrs-IsLoad loads) found in
        segment_is_memory arch laws k s r opens mem i q
          (All-get_elem? (Reads (k.pread s.pid) mem) _ i reads found) found v.aligned v.moderate
          v.inside)

  note_holds : (a : ℕ) → holds a (sized_note c s) ≡ false
  unfolding sized_note
  note_holds a = rw (ap (λ p. p.p_type) r.note_rest) refl

  -- Suppose that the tables are ready, the process memory can be opened, the pages of the dumped
  -- segments read as `mem`, the segments are aligned to 4096, up to 4 GiB long and within the
  -- address space, and the disk takes every write. Then a debugger that looks an address up in the
  -- bytes of the file gets the byte of the process at every address
  -- of a dumped segment, and nothing at every other address.
  pub peek-core_bytes :
      (mem : ℕ → ℕ) (a : ℕ)
      → All (Reads (k.pread s.pid) mem) (core_phdrs arch k s)
      → All (IsLoad c) s.phdr
      → peek c (core_bytes arch k s) a
        ≡ (if is_dumped (core_phdrs arch k s) a then some (mem a) else none)
  unfolding peek_in
  peek-core_bytes mem a reads loads =
      ap (λ ps. peek_in ps (core_bytes arch k s) a) (read_table-core_bytes arch laws k s r opens)
      ∙ rw (note_holds a) (
          peek_in-Slice (core_bytes arch k s) mem (core_phdrs arch k s) a
            (core_phdrs-Slice mem reads loads))
