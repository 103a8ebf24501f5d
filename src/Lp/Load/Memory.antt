-- ===== src/Lp/Load/Memory.antt =====
-- What a segment's bytes are, when its pages can be read from /proc/PID/mem: the memory of the
-- mapping.
use open_core_sdk.Prelude.{
  ℕ, zero, suc, ◌+◌, ◌-◌, ◌*◌, ◌/◌, ◌^◌, ◌≤◌, ◌<◌, ◌≡◌, refl, sym, ap, ◌∙◌, inl, inr, arith, List,
  [], ◌∷◌, ◌++◌, append-nil, length, take-length,
}
use open_core_sdk.Elf.{ElfClass, class32, class64, word_bits, Phdr}
use open_core_sdk.Lp.Write.{buffer}
use open_core_sdk.Lp.Load.{block_count, block_address, read_block}
use open_core_sdk.Lp.Load.Healthy.{block_run, segment_bytes, IsPaged, block_count-pages}

-- The bytes from the address `a` on, `n` of them.
unfoldable pub memory_bytes : (ℕ → ℕ) → ℕ → ℕ → List ℕ
memory_bytes mem a zero = []
memory_bytes mem a (suc n) = mem a ∷ memory_bytes mem (a + 1) n

memory_bytes-zero : (mem : ℕ → ℕ) (a : ℕ) → memory_bytes mem a 0 ≡ []
unfolding memory_bytes
memory_bytes-zero mem a = refl

pub length-memory_bytes : (mem : ℕ → ℕ) (a n : ℕ) → length (memory_bytes mem a n) ≡ n
unfolding memory_bytes
length-memory_bytes mem a zero = refl
length-memory_bytes mem a (suc n) = ap suc (length-memory_bytes mem (a + 1) n)

memory_bytes-append :
    (mem : ℕ → ℕ) (a m n b : ℕ)
    → b ≡ a + m
    → memory_bytes mem a m ++ memory_bytes mem b n ≡ memory_bytes mem a (m + n)
unfolding memory_bytes
memory_bytes-append mem a zero n b e =
    let e' : b ≡ a = omega arith in let s : 0 + n ≡ n = omega arith in rw (e', s)
memory_bytes-append mem a (suc m) n b e =
    let s : suc m + n ≡ suc (m + n) = omega arith in
    rw s (ap (λ t. mem a ∷ t) (memory_bytes-append mem (a + 1) m n b (omega arith)))

-- Every page of a dumped segment can be read in full, as the pages of a mapping can that the kernel
-- backs. (Of a segment that is left out nothing is asked, and nothing of any other address.)
abbrev pub Reads : (ℕ → ℕ → List ℕ) → (ℕ → ℕ) → Phdr → Type 0
Reads pread mem p =
    (i : ℕ)
    → i * 4096 < p.p_filesz
    → pread (p.p_vaddr + i * 4096) 4096 ≡ memory_bytes mem (p.p_vaddr + i * 4096) 4096

buffer_full : (n : ℕ) (bs : List ℕ) → length bs ≡ n → buffer n bs ≡ bs
unfolding buffer
buffer_full n bs e =
    rw (← e) (
      rw (take-length bs) (let z : length bs - length bs ≡ 0 = omega arith in rw z (append-nil bs)))

-- With no more than 4 GiB before it, a block is read from where it lies.
pub block_address_lem :
    (c : ElfClass) (p : Phdr) (i : ℕ)
    → i * 4096 < 2 ^ 32
    → p.p_vaddr + i * 4096 < 2 ^ word_bits c
    → block_address c 4096 p i ≡ p.p_vaddr + i * 4096
unfolding block_address
block_address_lem class32 p i small fits = omega arith
block_address_lem class64 p i small fits = omega arith

module _ (pread : ℕ → ℕ → List ℕ) (mem : ℕ → ℕ) (c : ElfClass) where
  read_block_lem :
      (p : Phdr) (i : ℕ)
      → p.p_align ≡ 4096
      → i * 4096 < 2 ^ 32
      → p.p_vaddr + i * 4096 < 2 ^ word_bits c
      → pread (p.p_vaddr + i * 4096) 4096 ≡ memory_bytes mem (p.p_vaddr + i * 4096) 4096
      → read_block pread c 4096 p i ≡ memory_bytes mem (p.p_vaddr + i * 4096) 4096
  unfolding read_block
  read_block_lem p i e small fits reads =
      ap (λ n. buffer 4096 (pread (block_address c 4096 p i) n)) e
      ∙ ap (λ a. buffer 4096 (pread a 4096)) (block_address_lem c p i small fits)
      ∙ ap (buffer 4096) reads
      ∙ buffer_full 4096 _ (length-memory_bytes mem (p.p_vaddr + i * 4096) 4096)

  block_run_lem :
      (p : Phdr) (n i : ℕ)
      → p.p_align ≡ 4096
      → (i + n) * 4096 ≤ 2 ^ 32
      → p.p_vaddr + (i + n) * 4096 ≤ 2 ^ word_bits c
      → (i + n) * 4096 ≤ p.p_filesz
      → Reads pread mem p
      → block_run pread c 4096 p n i ≡ memory_bytes mem (p.p_vaddr + i * 4096) (n * 4096)
  unfolding block_run
  block_run_lem p zero i e small fits within reads =
      sym (memory_bytes-zero mem (p.p_vaddr + i * 4096))
  block_run_lem p (suc n) i e small fits within reads =
      rw (read_block_lem p i e (omega arith) (omega arith) (reads i (omega arith))) (
        rw (block_run_lem p n (i + 1) e (omega arith) (omega arith) (omega arith) reads) (
          memory_bytes-append mem (p.p_vaddr + i * 4096) 4096 (n * 4096)
            (p.p_vaddr + (i + 1) * 4096) (omega arith)
          ∙ ap (memory_bytes mem (p.p_vaddr + i * 4096)) (omega arith)))

  -- A segment of at most 4 GiB that is dumped has the bytes of its mapping, first to last; one
  -- that is left out has none.
  pub segment_bytes_lem :
      (p : Phdr)
      → IsPaged p
      → p.p_align ≡ 4096
      → p.p_memsz ≤ 2 ^ 32
      → p.p_vaddr + p.p_memsz ≤ 2 ^ word_bits c
      → Reads pread mem p
      → segment_bytes pread c 4096 p ≡ memory_bytes mem p.p_vaddr p.p_filesz
  unfolding segment_bytes
  segment_bytes_lem p v e small fits reads = elim v.all_or_none [
    | inl none_dumped ↦ ground (arith, none_dumped, memory_bytes-zero mem p.p_vaddr)
    | inr all_dumped ↦ ground (arith, whole all_dumped, memory_bytes-zero mem p.p_vaddr)
  ]
    where
      pages : ℕ
      pages = p.p_memsz / 4096

      start : p.p_vaddr + 0 * 4096 ≡ p.p_vaddr
      start = omega arith

      size : pages * 4096 ≡ p.p_memsz
      size = omega (arith, v.whole)

      whole :
          p.p_filesz ≡ p.p_memsz
          → block_run pread c 4096 p (block_count 4096 p) 0 ≡ memory_bytes mem p.p_vaddr p.p_memsz
      whole all_dumped =
          ap (λ n. block_run pread c 4096 p n 0) (block_count-pages v)
          ∙ block_run_lem p pages 0 e (omega (arith, size)) (omega (arith, size))
              (omega (arith, size, all_dumped)) reads
          ∙ ap (λ a. memory_bytes mem a (pages * 4096)) start
          ∙ ap (memory_bytes mem p.p_vaddr) size
