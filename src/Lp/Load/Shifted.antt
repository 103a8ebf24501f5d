-- ===== src/Lp/Load/Shifted.antt =====
-- WriteCoreLoadSegment when a write of the padding fails as well, which its loop does not look at
-- (opencore/src/main/cpp/opencore/lp64/opencore.cpp and lp32/opencore.cpp).
use open_core_sdk.Prelude.{
  ℕ, zero, suc, ◌+◌, ◌*◌, ◌/◌, ◌≤◌, ◌<◌, ◌≡◌, ◌≢◌, refl, ◌∙◌, true, arith, List, [], ◌∷◌, ◌++◌, inl,
  inr, length, length-take, length-replicate, take, replicate, lt→ltb,
}
use open_core_sdk.Elf.{ElfClass, Phdr}
use open_core_sdk.Stream.{Stream, Outcome, Errno, short, put_bytes, fwrite, fwrite_all}
use open_core_sdk.Lp.Load.{block_count, write_segment, zero_pages, padd_zero}
use open_core_sdk.Lp.Load.Healthy.{IsPaged, block_count-pages}
use open_core_sdk.Lp.Load.Padding.{at_end, fails_after, written, write_blocks-fails}
use open_core_sdk.Lp.Load.Failures.{completes}

abbrev stream : List ℕ → ℕ → List Outcome → Stream
stream ys k os = record { bytes = ys; pos = k; outcomes = os }

-- `q` pages are padded, and in the next one `m` bytes are.
abbrev pub padding_fails : ℕ → ℕ → Errno → List Outcome
padding_fails q m e = completes q ++ (short m e ∷ [])

module _ (a : ℕ) where
  padded_pos :
      (n : ℕ) (ys : List ℕ) (k : ℕ) → (fwrite_all (zero_pages n a) (stream ys k [])).pos ≡ k + n * a
  unfolding fwrite_all fwrite put_bytes
  padded_pos zero ys k = omega arith
  padded_pos (suc n) ys k =
      padded_pos n _ (k + length (replicate {A = ℕ} a 0))
      ∙ omega (arith, length-replicate {A = ℕ} a 0)

  shifted_pos :
      (q n m : ℕ) (e : Errno) (ys : List ℕ) (k : ℕ)
      → q < n
      → m ≤ a
      → (fwrite_all (zero_pages n a) (stream ys k (padding_fails q m e))).pos + a ≡ k + n * a + m
  unfolding fwrite_all fwrite put_bytes
  shifted_pos q zero m e ys k h small = absurd (omega arith)
  shifted_pos zero (suc n) m e ys k h small = omega (
    arith,
    padded_pos n _ (k + length (take m (replicate {A = ℕ} a 0))),
    length-take m (replicate {A = ℕ} a 0),
    length-replicate {A = ℕ} a 0,
  )
  shifted_pos (suc q) (suc n) m e ys k h small = omega (
    arith,
    shifted_pos q n m e _ (k + length (replicate {A = ℕ} a 0)) (omega arith) small,
    length-replicate {A = ℕ} a 0,
  )

-- Suppose that a block of a dumped segment of whole pages fails, not for want of space and not at the
-- start of the file, and that of the zero pages that take its place page `q` fails after `m` bytes.
-- Then the loop goes on, and the next segment is written 4096 - `m` bytes before the place that its
-- header names.
pub write_segment-shifted :
    (pread : ℕ → ℕ → List ℕ) (c : ElfClass) (p : Phdr) (n j q m : ℕ) (e : Errno) (xs : List ℕ)
    → IsPaged p
    → p.p_filesz ≢ 0
    → j < p.p_memsz / 4096
    → q < p.p_memsz / 4096
    → m ≤ 4096
    → 0 < length xs
    → let (goes_on, f) =
        write_segment pread c 4096 p (at_end xs (fails_after j n ++ padding_fails q m e)) in
      (goes_on ≡ true) × (f.pos + 4096 ≡ length xs + p.p_filesz + m)
unfolding write_segment padd_zero
write_segment-shifted pread c p n j q m e xs v dumped inside within small started =
    let count : block_count 4096 p ≡ p.p_memsz / 4096 = block_count-pages v in
    rw
      (
        lt→ltb 0 p.p_filesz (omega (arith, dumped)),
        write_blocks-fails pread c 4096 p n j (block_count 4096 p) 0 xs (padding_fails q m e)
            (omega (arith, count, inside)),
        lt→ltb 0 (length xs) started,
      )
      (
        refl,
        shifted_pos 4096 q (block_count 4096 p) m e (xs ++ written pread c 4096 p n j 0) (length xs)
              (omega (arith, count, within)) small
            ∙ total count,
      )
  where
    total :
        block_count 4096 p ≡ p.p_memsz / 4096
        → length xs + block_count 4096 p * 4096 + m ≡ length xs + p.p_filesz + m
    total r = elim v.all_or_none [
      | inl z ↦ absurd (dumped z)
      | inr z ↦ omega (arith, r, z, v.whole)
    ]
