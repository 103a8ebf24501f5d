-- ===== src/Lp/Load/FullDisk.antt =====
-- WriteCoreLoadSegment when the disk is full (opencore/src/main/cpp/opencore/lp64/opencore.cpp and
-- lp32/opencore.cpp).
use open_core_sdk.Prelude.{
  ℕ, zero, suc, ◌+◌, ◌-◌, ◌≤◌, ◌<◌, ◌≡◌, refl, sym, ap, ◌∙◌, ◌⊎◌, inl, inr, arith, List, [], ◌∷◌,
  ◌++◌, append-nil, append_assoc, Bool-cases, ltb, take, drop, take-append-drop, length,
}
use open_core_sdk.Elf.{ElfClass, Phdr}
use open_core_sdk.Stream.{Outcome, complete, short, enospc, fwrite}
use open_core_sdk.Lp.Load.{
  block_count, read_block, no_space, all_written, write_blocks, write_segment, write_segments,
  after_segment, after_blocks,
}
use open_core_sdk.Lp.Load.Healthy.{block_run, segment_bytes, segments_bytes}
use open_core_sdk.Lp.Load.Padding.{at_end, put_bytes-end}

-- The answers of the disk: `j` writes go well, and in the next one it is full after `n` bytes.
abbrev pub full_after : ℕ → ℕ → List Outcome
full_after zero n = short n enospc ∷ []
full_after (suc j) n = complete ∷ full_after j n

below_or_not : (j m : ℕ) → (j < m) ⊎ (m ≤ j)
below_or_not j m = grind arith

module _ (pread : ℕ → ℕ → List ℕ) (c : ElfClass) (a : ℕ) where
  write_blocks-full :
      (p : Phdr) (n j m i : ℕ) (xs : List ℕ)
      → j < m
      → (ys : List ℕ) × (rest : List ℕ) × (write_blocks pread c a p m i (at_end xs (full_after j n))
          ≡ (no_space, at_end (xs ++ ys) []))
        × (ys ++ rest ≡ block_run pread c a p m i)
  unfolding write_blocks fwrite block_run
  write_blocks-full p n j zero i xs h = absurd (omega arith)
  write_blocks-full p n zero (suc m) i xs h =
      let block = read_block pread c a p i in
      let others = block_run pread c a p m (i + 1) in
      (
        take n block,
        drop n block ++ others,
        ap (λ f. (no_space, f)) (put_bytes-end xs (take n block) []),
        sym (append_assoc (take n block) (drop n block) others)
            ∙ ap (λ ys. ys ++ others) (take-append-drop n block),
      )
  write_blocks-full p n (suc j) (suc m) i xs h =
      let block = read_block pread c a p i in
      let (ys, rest, e, q) = write_blocks-full p n j m (i + 1) (xs ++ block) (omega arith) in
      (
        block ++ ys,
        rest,
        ap (write_blocks pread c a p m (i + 1)) (put_bytes-end xs block (full_after j n))
            ∙ e
            ∙ ap (λ zs. (no_space, at_end zs [])) (append_assoc xs block ys),
        append_assoc block ys rest ∙ ap (λ zs. block ++ zs) q,
      )

  write_blocks-room :
      (p : Phdr) (n j m i : ℕ) (xs : List ℕ)
      → m ≤ j
      → write_blocks pread c a p m i (at_end xs (full_after j n))
        ≡ (all_written, at_end (xs ++ block_run pread c a p m i) (full_after (j - m) n))
  unfolding write_blocks fwrite block_run
  write_blocks-room p n j zero i xs h =
      let e : j ≡ j - 0 = omega arith in
      ap (λ ys. (all_written, at_end ys (full_after j n))) (sym (append-nil xs))
      ∙ ap (λ k. (all_written, at_end (xs ++ []) (full_after k n))) e
  write_blocks-room p n zero (suc m) i xs h = absurd (omega arith)
  write_blocks-room p n (suc j) (suc m) i xs h =
      let block = read_block pread c a p i in
      let e : j - m ≡ suc j - suc m = omega arith in
      ap (write_blocks pread c a p m (i + 1)) (put_bytes-end xs block (full_after j n))
      ∙ write_blocks-room p n j m (i + 1) (xs ++ block) (omega arith)
      ∙ ap (λ zs. (all_written, at_end zs (full_after (j - m) n)))
          (append_assoc xs block (block_run pread c a p m (i + 1)))
      ∙ ap
          (λ k. (
            all_written,
            at_end (xs ++ (block ++ block_run pread c a p m (i + 1))) (full_after k n),
          ))
          e

  -- When the disk is full after some writes, wherever in the segments that is, what has been
  -- written of them is a beginning of what they are on a disk with room, and nothing is written
  -- over or behind it.
  pub write_segments-full :
      (n j : ℕ) (ps : List Phdr) (xs : List ℕ)
      → (ys : List ℕ) × (rest : List ℕ) × ((write_segments pread c a ps
            (at_end xs (full_after j n))).bytes
          ≡ xs ++ ys)
        × (ys ++ rest ≡ segments_bytes pread c a ps)
  unfolding write_segments write_segment segments_bytes segment_bytes
  write_segments-full n j [] xs = ([], [], sym (append-nil xs), refl)
  write_segments-full n j (p ∷ ps) xs = elim (Bool-cases (ltb 0 p.p_filesz)) [
    | inr empty ↦ rw empty (write_segments-full n j ps xs)
    | inl dumped ↦ elim (below_or_not j (block_count a p)) [
      | inl less ↦ rw dumped (
          let (ys, rest, e, q) = write_blocks-full p n j (block_count a p) 0 xs less in
          (
            ys,
            rest ++ segments_bytes pread c a ps,
            ap
                (λ r.
                  (after_segment (after_blocks a p (length xs) r)
                    (write_segments pread c a ps)).bytes)
                e,
            sym (append_assoc ys rest (segments_bytes pread c a ps))
                ∙ ap (λ zs. zs ++ segments_bytes pread c a ps) q,
          ))
      | inr room ↦ rw dumped (
          let run = block_run pread c a p (block_count a p) 0 in
          let (ys, rest, e, q) = write_segments-full n (j - block_count a p) ps (xs ++ run) in
          (
            run ++ ys,
            rest,
            ap
                  (λ r.
                    (after_segment (after_blocks a p (length xs) r)
                      (write_segments pread c a ps)).bytes)
                  (write_blocks-room p n j (block_count a p) 0 xs room)
                ∙ e
                ∙ append_assoc xs run ys,
            append_assoc run ys rest ∙ ap (λ zs. run ++ zs) q,
          ))
    ]
  ]
