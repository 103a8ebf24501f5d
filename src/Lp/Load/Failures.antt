-- ===== src/Lp/Load/Failures.antt =====
-- WriteCoreLoadSegment when writes of several segments fail, each for a reason other than a full
-- disk (opencore/src/main/cpp/opencore/lp64/opencore.cpp and lp32/opencore.cpp).
use open_core_sdk.Prelude.{
  ℕ, zero, suc, ◌+◌, ◌/◌, ◌<◌, ◌≡◌, refl, sym, ap, ◌∙◌, true, false, arith, List, [], ◌∷◌, ◌++◌,
  append-nil, append_assoc, Bool-cases, ltb, ltb→lt, if◌then◌else◌, length, length-append,
  length-replicate, replicate, map, All, some, inl, inr,
}
use open_core_sdk.Elf.{ElfClass, Phdr}
use open_core_sdk.Stream.{Outcome, complete, fwrite}
use open_core_sdk.Lp.Load.{
  block_count, read_block, all_written, write_blocks, write_segment, write_segments, after_blocks,
  after_segment,
}
use open_core_sdk.Lp.Load.Healthy.{
  IsPaged, block_run, segment_bytes, length-segment_bytes, total_filesz,
}
use open_core_sdk.Lp.Load.Padding.{at_end, put_bytes-end, fails_after, takes, write_segment-padded}

abbrev pub completes : ℕ → List Outcome
completes n = replicate n complete

takes-completes : (n : ℕ) (os : List Outcome) → takes n (completes n ++ os) ≡ some os
takes-completes zero os = refl
takes-completes (suc n) os = takes-completes n os

-- What the disk does to a dumped segment: it takes all of its blocks, or it takes `j` of them, fails
-- in the next one after `n` bytes, and takes the padding.
pub data Fate : Type 0 where
  intact : Fate
  broken : ℕ → ℕ → Fate

abbrev pub fate_script : ℕ → Fate → List Outcome
fate_script count intact = completes count
fate_script count (broken j n) = fails_after j n ++ completes count

-- The answers of the disk to the writes of one segment. One that is not dumped makes none.
abbrev pub segment_script : Phdr × Fate → List Outcome
segment_script (p, fate) = if ltb 0 p.p_filesz then fate_script (block_count 4096 p) fate else []

abbrev pub script : List (Phdr × Fate) → List Outcome
script [] = []
script (s ∷ ss) = segment_script s ++ script ss

-- A failure is in one of the blocks.
abbrev pub IsWithin : Phdr → Fate → Type 0
IsWithin p intact = Unit {0}
IsWithin p (broken j n) = j < p.p_memsz / 4096

abbrev pub Fits : Phdr × Fate → Type 0
Fits (p, fate) = IsPaged p × IsWithin p fate

module _ (pread : ℕ → ℕ → List ℕ) (c : ElfClass) where
  -- The bytes of a segment in the file, or as many zeros.
  abbrev pub fate_bytes : Phdr → Fate → List ℕ
  fate_bytes p intact = segment_bytes pread c 4096 p
  fate_bytes p (broken j n) = replicate p.p_filesz 0

  abbrev pub outcome_bytes : List (Phdr × Fate) → List ℕ
  outcome_bytes [] = []
  outcome_bytes ((p, fate) ∷ ss) = fate_bytes p fate ++ outcome_bytes ss

  write_blocks-intact :
      (p : Phdr) (m i : ℕ) (xs : List ℕ) (os : List Outcome)
      → write_blocks pread c 4096 p m i (at_end xs (completes m ++ os))
        ≡ (all_written, at_end (xs ++ block_run pread c 4096 p m i) os)
  unfolding write_blocks fwrite block_run
  write_blocks-intact p zero i xs os = ap (λ ys. (all_written, at_end ys os)) (sym (append-nil xs))
  write_blocks-intact p (suc m) i xs os =
      let block = read_block pread c 4096 p i in
      ap (write_blocks pread c 4096 p m (i + 1)) (put_bytes-end xs block (completes m ++ os))
      ∙ write_blocks-intact p m (i + 1) (xs ++ block) os
      ∙ ap (λ zs. (all_written, at_end zs os))
          (append_assoc xs block (block_run pread c 4096 p m (i + 1)))

  write_segment-intact :
      (p : Phdr) (xs : List ℕ) (os : List Outcome)
      → ltb 0 p.p_filesz ≡ true
      → write_segment pread c 4096 p (at_end xs (completes (block_count 4096 p) ++ os))
        ≡ (true, at_end (xs ++ segment_bytes pread c 4096 p) os)
  unfolding write_segment segment_bytes
  write_segment-intact p xs os dumped =
      rw dumped
        (ap (after_blocks 4096 p (length xs)) (write_blocks-intact p (block_count 4096 p) 0 xs os))

  write_segment-fate :
      (p : Phdr) (fate : Fate) (xs : List ℕ) (os : List Outcome)
      → Fits (p, fate)
      → 0 < length xs
      → ltb 0 p.p_filesz ≡ true
      → write_segment pread c 4096 p (at_end xs (fate_script (block_count 4096 p) fate ++ os))
        ≡ (true, at_end (xs ++ fate_bytes p fate) os)
  write_segment-fate p intact xs os v started dumped = write_segment-intact p xs os dumped
  write_segment-fate p (broken j n) xs os v started dumped =
      let count = block_count 4096 p in
      ap (λ os'. write_segment pread c 4096 p (at_end xs os'))
        (append_assoc (fails_after j n) (completes count) os)
      ∙ write_segment-padded pread c p n j xs (completes count ++ os) os v.0
          (λ e. absurd (omega (arith, e, ltb→lt 0 p.p_filesz dumped))) v.1 started
          (takes-completes count os)

  pub length-fate_bytes :
      (p : Phdr) (fate : Fate) → IsPaged p → length (fate_bytes p fate) ≡ p.p_filesz
  length-fate_bytes p intact v = length-segment_bytes pread c v
  length-fate_bytes p (broken j n) v = length-replicate p.p_filesz 0

  fate_bytes-empty : (p : Phdr) (fate : Fate) → ltb 0 p.p_filesz ≡ false → fate_bytes p fate ≡ []
  unfolding segment_bytes
  fate_bytes-empty p intact e = rw e
  fate_bytes-empty p (broken j n) e =
      let z : p.p_filesz ≡ 0 = ground arith in ap (λ n. replicate n 0) z

  write_segment-script :
      (p : Phdr) (fate : Fate) (xs : List ℕ) (os : List Outcome)
      → Fits (p, fate)
      → 0 < length xs
      → write_segment pread c 4096 p (at_end xs (segment_script (p, fate) ++ os))
        ≡ (true, at_end (xs ++ fate_bytes p fate) os)
  write_segment-script p fate xs os v started = elim (Bool-cases (ltb 0 p.p_filesz)) [
    | inl dumped ↦ rw dumped (write_segment-fate p fate xs os v started dumped)
    | inr empty ↦ rw empty (write_segment-empty empty ∙ ap (λ f. (true, f)) (nothing empty))
  ]
    where
      write_segment-empty :
          ltb 0 p.p_filesz ≡ false
          → write_segment pread c 4096 p (at_end xs os) ≡ (true, at_end xs os)
      write_segment-empty e = unfold write_segment in rw e

      nothing : ltb 0 p.p_filesz ≡ false → at_end xs os ≡ at_end (xs ++ fate_bytes p fate) os
      nothing e =
          ap (λ ys. at_end ys os)
            (sym (append-nil xs) ∙ ap (λ zs. xs ++ zs) (sym (fate_bytes-empty p fate e)))

  -- Suppose that the disk, for each dumped segment, takes all of its blocks, or fails in one of them
  -- other than for want of space and then takes the zero pages; and that the segments are of whole
  -- pages and not the first thing in the file. Then each dumped segment is in the file with its
  -- bytes, or with zeros if a write of it failed, one behind the other; and together they are as long
  -- as their headers say.
  pub write_segments-fates :
      (ss : List (Phdr × Fate)) (xs : List ℕ)
      → All Fits ss
      → 0 < length xs
      → (write_segments pread c 4096 (map (λ s. s.0) ss) (at_end xs (script ss))
          ≡ at_end (xs ++ outcome_bytes ss) [])
        × (length (outcome_bytes ss) ≡ total_filesz (map (λ s. s.0) ss))
  unfolding write_segments
  write_segments-fates [] xs v started = (ap (λ ys. at_end ys []) (sym (append-nil xs)), refl)
  write_segments-fates ((p, fate) ∷ ss) xs (v, vs) started =
      let (e, len) =
        write_segments-fates ss (xs ++ fate_bytes p fate) vs
          (omega (arith, length-append xs (fate_bytes p fate))) in
      (
        ap (λ r. after_segment r (write_segments pread c 4096 (map (λ s. s.0) ss)))
              (write_segment-script p fate xs (script ss) v started)
            ∙ e
            ∙ ap (λ ys. at_end ys []) (append_assoc xs (fate_bytes p fate) (outcome_bytes ss)),
        omega (
          arith,
          length-append (fate_bytes p fate) (outcome_bytes ss),
          length-fate_bytes p fate v.0,
          len,
        ),
      )
