-- ===== src/Lp/Load/Padding.antt =====
-- WriteCoreLoadSegment when a write fails for a reason other than a full disk
-- (opencore/src/main/cpp/opencore/lp64/opencore.cpp and lp32/opencore.cpp).
use open_core_sdk.Prelude.{drop-add, Option, some, none}
use open_core_sdk.Prelude.{
  ℕ, zero, suc, ◌+◌, ◌-◌, ◌*◌, ◌/◌, ◌≤◌, ◌<◌, ◌≡◌, ◌≢◌, refl, sym, ap, ◌∙◌, inl, inr, true, arith,
  List, [], ◌∷◌, ◌++◌, append-nil, append_assoc, length, length-append, length-take, length-drop,
  length-replicate, replicate-add, take, drop, take-append, drop-append, drop-all, replicate,
  lt→ltb,
}
use open_core_sdk.Elf.{ElfClass, Phdr}
use open_core_sdk.Stream.{Stream, Outcome, complete, short, other, put_bytes, fwrite, fwrite_all}
use open_core_sdk.Stream.Append.{append_bytes}
use open_core_sdk.Lp.Load.{
  block_address, block_count, read_block, need_padd_zero, write_blocks, write_segment, zero_pages,
  padd_zero,
}
use open_core_sdk.Lp.Load.Healthy.{IsPaged, block_count-pages, length-buffer}

-- A stream with `xs` before its position and `rest` behind it.
abbrev pub between : List ℕ → List ℕ → List Outcome → Stream
between xs rest os = record { bytes = xs ++ rest; pos = length xs; outcomes = os }

-- A stream at its end.
abbrev pub at_end : List ℕ → List Outcome → Stream
at_end xs os = record { bytes = xs; pos = length xs; outcomes = os }

pub put_bytes-end :
    (xs bs : List ℕ) (os : List Outcome) → put_bytes bs (at_end xs os) ≡ at_end (xs ++ bs) os
unfolding put_bytes
put_bytes-end xs bs os i = record {
  bytes = append_bytes xs bs (length xs) refl i;
  pos = sym (length-append xs bs) i;
  outcomes = os;
}

put_bytes-between :
    (xs rest bs : List ℕ) (os : List Outcome)
    → put_bytes bs (between xs rest os) ≡ between (xs ++ bs) (drop (length bs) rest) os
unfolding put_bytes
put_bytes-between xs rest bs os i = record {
  bytes = same i;
  pos = sym (length-append xs bs) i;
  outcomes = os;
}
  where
    skip : drop (length xs + length bs) (xs ++ rest) ≡ drop (length bs) rest
    skip =
        sym (drop-add (length xs) (length bs) (xs ++ rest))
        ∙ ap (drop (length bs)) (drop-append (length xs) xs rest refl)

    gap : length xs - length (xs ++ rest) ≡ 0
    gap = omega (arith, length-append xs rest)

    same :
        take (length xs) (xs ++ rest)
          ++ (replicate (length xs - length (xs ++ rest)) 0
              ++ (bs ++ drop (length xs + length bs) (xs ++ rest)))
        ≡ (xs ++ bs) ++ drop (length bs) rest
    same = rw (gap, take-append (length xs) xs rest refl, skip) (sym (append_assoc xs bs _))

-- What is left of the disk's answers after `n` writes that all go well.
abbrev pub takes : ℕ → List Outcome → Option (List Outcome)
takes zero os = some os
takes (suc n) [] = takes n []
takes (suc n) (complete ∷ os) = takes n os
takes (suc n) (short m e ∷ os) = none

pub takes-nil : (n : ℕ) → takes n [] ≡ some []
takes-nil zero = refl
takes-nil (suc n) = takes-nil n

module _ (a : ℕ) where
  zero_page :
      (n : ℕ) (xs rest : List ℕ) (os os' : List Outcome)
      → fwrite_all
          (zero_pages n a)
          (between (xs ++ replicate a 0) (drop (length (replicate {A = ℕ} a 0)) rest) os)
        ≡ between ((xs ++ replicate a 0) ++ replicate (n * a) 0) [] os'
      → fwrite_all (zero_pages n a) (put_bytes (replicate a 0) (between xs rest os))
        ≡ between (xs ++ replicate (suc n * a) 0) [] os'
  zero_page n xs rest os os' ih =
      let e : a + n * a ≡ suc n * a = omega arith in
      ap (fwrite_all (zero_pages n a)) (put_bytes-between xs rest (replicate a 0) os)
      ∙ ih
      ∙ ap (λ ys. between ys [] os')
          (append_assoc xs (replicate a 0) (replicate (n * a) 0)
            ∙ ap (λ zs. xs ++ zs) (replicate-add a (n * a) 0)
            ∙ ap (λ k. xs ++ replicate k 0) e)

  rest_fits :
      (n : ℕ) (rest : List ℕ)
      → length rest ≤ suc n * a
      → length (drop (length (replicate {A = ℕ} a 0)) rest) ≤ n * a
  rest_fits n rest h =
      omega (arith, length-drop (length (replicate {A = ℕ} a 0)) rest, length-replicate {A = ℕ} a 0)

  fwrite_all-zero_pages :
      (n : ℕ) (xs rest : List ℕ) (os os' : List Outcome)
      → length rest ≤ n * a
      → takes n os ≡ some os'
      → fwrite_all (zero_pages n a) (between xs rest os)
        ≡ between (xs ++ replicate (n * a) 0) [] os'
  unfolding fwrite_all fwrite
  fwrite_all-zero_pages zero xs rest os os' h t =
      let e : 0 ≡ 0 * a = omega arith in
      let same : os ≡ os' = cc in
      ap (λ ys. between xs ys os) (drop-all 0 rest (omega arith))
      ∙ ap (λ ys. between ys [] os) (sym (append-nil xs) ∙ ap (λ k. xs ++ replicate k 0) e)
      ∙ ap (between (xs ++ replicate (0 * a) 0) []) same
  fwrite_all-zero_pages (suc n) xs rest [] os' h t = zero_page n xs rest [] os' (
      fwrite_all-zero_pages n (xs ++ replicate a 0) (drop (length (replicate {A = ℕ} a 0)) rest) []
        os' (rest_fits n rest h) t)
  fwrite_all-zero_pages (suc n) xs rest (complete ∷ os) os' h t = zero_page n xs rest os os' (
      fwrite_all-zero_pages n (xs ++ replicate a 0) (drop (length (replicate {A = ℕ} a 0)) rest) os
        os' (rest_fits n rest h) t)
  fwrite_all-zero_pages (suc n) xs rest (short m e ∷ os) os' h t = cc

-- The answers of the disk: `j` writes go well, one writes `n` bytes and fails.
abbrev pub fails_after : ℕ → ℕ → List Outcome
fails_after zero n = short n other ∷ []
fails_after (suc j) n = complete ∷ fails_after j n

module _ (pread : ℕ → ℕ → List ℕ) (c : ElfClass) (a : ℕ) where
  -- What has been written when the loop over the blocks breaks.
  abbrev pub written : Phdr → ℕ → ℕ → ℕ → List ℕ
  written p n zero i = take n (read_block pread c a p i)
  written p n (suc j) i = read_block pread c a p i ++ written p n j (i + 1)

  pub length-written : (p : Phdr) (n j i : ℕ) → length (written p n j i) ≤ suc j * a
  unfolding read_block
  length-written p n zero i = omega (
    arith,
    length-take n (read_block pread c a p i),
    length-buffer a (pread (block_address c a p i) p.p_align),
  )
  length-written p n (suc j) i = omega (
    arith,
    length-append (read_block pread c a p i) (written p n j (i + 1)),
    length-buffer a (pread (block_address c a p i) p.p_align),
    length-written p n j (i + 1),
  )

  pub write_blocks-fails :
      (p : Phdr) (n j m i : ℕ) (xs : List ℕ) (os : List Outcome)
      → j < m
      → write_blocks pread c a p m i (at_end xs (fails_after j n ++ os))
        ≡ (need_padd_zero, at_end (xs ++ written p n j i) os)
  unfolding write_blocks fwrite
  write_blocks-fails p n j zero i xs os h = absurd (omega arith)
  write_blocks-fails p n zero (suc m) i xs os h =
      ap (λ f. (need_padd_zero, f)) (put_bytes-end xs (take n (read_block pread c a p i)) os)
  write_blocks-fails p n (suc j) (suc m) i xs os h =
      ap (write_blocks pread c a p m (i + 1))
        (put_bytes-end xs (read_block pread c a p i) (fails_after j n ++ os))
      ∙ write_blocks-fails p n j m (i + 1) (xs ++ read_block pread c a p i) os (omega arith)
      ∙ ap (λ ys. (need_padd_zero, at_end ys os))
          (append_assoc xs (read_block pread c a p i) (written p n j (i + 1)))

-- The same with the answers `os` behind the failure, of which the padding takes the first ones.
pub write_segment-padded :
    (pread : ℕ → ℕ → List ℕ) (c : ElfClass) (p : Phdr) (n j : ℕ) (xs : List ℕ)
    (os os' : List Outcome)
    → IsPaged p
    → p.p_filesz ≢ 0
    → j < p.p_memsz / 4096
    → 0 < length xs
    → takes (block_count 4096 p) os ≡ some os'
    → write_segment pread c 4096 p (at_end xs (fails_after j n ++ os))
      ≡ (true, at_end (xs ++ replicate p.p_filesz 0) os')
unfolding write_segment padd_zero
write_segment-padded pread c p n j xs os os' v dumped inside started well =
    let count : block_count 4096 p ≡ p.p_memsz / 4096 = block_count-pages v in
    let all : block_count 4096 p * 4096 ≡ p.p_filesz = total count in
    rw
      (
        lt→ltb 0 p.p_filesz (omega (arith, dumped)),
        write_blocks-fails pread c 4096 p n j (block_count 4096 p) 0 xs os
            (omega (arith, count, inside)),
        lt→ltb 0 (length xs) started,
      )
      (ap (λ f. (true, f))
        (fwrite_all-zero_pages 4096 (block_count 4096 p) xs (written pread c 4096 p n j 0) os os'
            (omega (arith, count, inside, length-written pread c 4096 p n j 0)) well
          ∙ ap (λ m. between (xs ++ replicate m 0) [] os') all
          ∙ ended (xs ++ replicate p.p_filesz 0)))
  where
    total : block_count 4096 p ≡ p.p_memsz / 4096 → block_count 4096 p * 4096 ≡ p.p_filesz
    total e = elim v.all_or_none [
      | inl z ↦ absurd (dumped z)
      | inr z ↦ omega (arith, e, z, v.whole)
    ]

    ended : (ys : List ℕ) → between ys [] os' ≡ at_end ys os'
    ended ys i = record { bytes = append-nil ys i; pos = length ys; outcomes = os' }

-- Suppose that a segment of whole pages is dumped, not as the first thing in the file, and that the
-- disk takes `j` of its blocks, then fails in a block, after `n` of its bytes and not for want of
-- space, and then takes every write. Then the loop goes on to the next segment, and the whole
-- segment is zeros in the file: it has as many bytes as its header says, so the segments behind it
-- stand where their headers say.
pub write_segment-padding :
    (pread : ℕ → ℕ → List ℕ) (c : ElfClass) (p : Phdr) (n j : ℕ) (xs : List ℕ)
    → IsPaged p
    → p.p_filesz ≢ 0
    → j < p.p_memsz / 4096
    → 0 < length xs
    → write_segment pread c 4096 p (at_end xs (fails_after j n))
      ≡ (true, at_end (xs ++ replicate p.p_filesz 0) [])
write_segment-padding pread c p n j xs v dumped inside started =
    ap (λ os. write_segment pread c 4096 p (at_end xs os)) (sym (append-nil (fails_after j n)))
    ∙ write_segment-padded pread c p n j xs [] [] v dumped inside started
        (takes-nil (block_count 4096 p))
