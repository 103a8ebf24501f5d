-- ===== src/Lp/Layout/Spoiled.antt =====
-- The core file of a disk on which writes of the segments fail
-- (opencore/src/main/cpp/opencore/lp64/opencore.cpp and lp32/opencore.cpp).
use mathlib.Core.List.{head-eq_of_cons-eq, tail-eq_of_cons-eq}
use open_core_sdk.Prelude.{
  ℕ, zero, suc, ◌+◌, ◌^◌, ◌<◌, ◌≡◌, sym, ap, ◌∙◌, subst, true, arith, List, [], ◌∷◌, ◌++◌,
  append-nil, append_assoc, map, some, some-inj, length, length-append, take, drop, get_elem?,
  drop-append, take-append, All,
}
use open_core_sdk.Elf.{ElfClass, word_bits, wrap, Phdr}
use open_core_sdk.Elf.Wrap.{wrap_small}
use open_core_sdk.Kernel.{Kernel}
use open_core_sdk.Stream.{Outcome, fresh, fwrite, fwrite_all}
use open_core_sdk.Stream.Append.{concat}
use open_core_sdk.Lp.{OpencoreImpl}
use open_core_sdk.Lp.Write.{place_phdrs, write_core_program_headers, write_core_note_header}
use open_core_sdk.Lp.Load.{write_core_load_segment, write_segments}
use open_core_sdk.Lp.Load.Healthy.{total_filesz}
use open_core_sdk.Lp.Load.Padding.{at_end, put_bytes-end}
use open_core_sdk.Lp.Load.Failures.{
  completes, Fate, Fits, script, fate_bytes, outcome_bytes, length-fate_bytes, write_segments-fates,
}
use open_core_sdk.Lp.Dump.{Arch, write_core}
use open_core_sdk.Lp.Layout.File.{NotesLaws, IsReady, placed, front_writes, front_calls, load_lem}
use open_core_sdk.Lp.Layout.Front.{placed_phdrs_lem, length-front}
use open_core_sdk.Lp.Layout.Core.{core_phdrs, start, front}

fwrite_all-completes :
    (calls : List (List ℕ)) (xs : List ℕ) (os : List Outcome)
    → fwrite_all calls (at_end xs (completes (length calls) ++ os)) ≡ at_end (xs ++ concat calls) os
unfolding fwrite_all fwrite
fwrite_all-completes [] xs os = ap (λ ys. at_end ys os) (sym (append-nil xs))
fwrite_all-completes (call ∷ calls) xs os =
    ap (fwrite_all calls) (put_bytes-end xs call (completes (length calls) ++ os))
    ∙ fwrite_all-completes calls (xs ++ call) os
    ∙ ap (λ ys. at_end ys os) (append_assoc xs call (concat calls))

-- Each placed segment, with its bytes or as zeros, is where its header says.
outcome_slice :
    (pread : ℕ → ℕ → List ℕ) (c : ElfClass) (ss : List (Phdr × Fate)) (ps : List Phdr) (offset : ℕ)
    (xs : List ℕ) (i : ℕ) (q : Phdr) (fate : Fate)
    → All Fits ss
    → map (λ s. s.0) ss ≡ place_phdrs c offset ps
    → offset ≡ length xs
    → offset + total_filesz ps < 2 ^ word_bits c
    → get_elem? ss i ≡ some (q, fate)
    → take q.p_filesz (drop q.p_offset (xs ++ outcome_bytes pread c ss)) ≡ fate_bytes pread c q fate
unfolding place_phdrs
outcome_slice pread c [] ps offset xs i q fate v m e fits found = cc
outcome_slice pread c (s ∷ ss) [] offset xs i q fate v m e fits found = cc
outcome_slice pread c ((p', here) ∷ ss) (p ∷ ps) offset xs zero q fate (v, vs) m e fits found =
    subst
      (λ (t : Phdr × Fate).
        take t.0.p_filesz
          (drop t.0.p_offset (xs ++ (fate_bytes pread c p' here ++ outcome_bytes pread c ss)))
        ≡ fate_bytes pread c t.0 t.1)
      (some-inj found)
      (rw
        (drop-append p'.p_offset xs (fate_bytes pread c p' here ++ outcome_bytes pread c ss)
          (ap (λ (t : Phdr). t.p_offset) (head-eq_of_cons-eq m) ∙ e))
        (take-append p'.p_filesz (fate_bytes pread c p' here) (outcome_bytes pread c ss)
          (sym (length-fate_bytes pread c p' here v.0))))
outcome_slice pread c ((p', here) ∷ ss) (p ∷ ps) offset xs (suc i) q fate (v, vs) m e fits found =
    ap (λ ys. take q.p_filesz (drop q.p_offset ys))
      (sym (append_assoc xs (fate_bytes pread c p' here) (outcome_bytes pread c ss)))
    ∙ outcome_slice pread c ss ps (wrap c (offset + p.p_filesz)) (xs ++ fate_bytes pread c p' here)
        i q fate vs (tail-eq_of_cons-eq m)
        (unwrapped
          ∙ omega (
            arith,
            length-append xs (fate_bytes pread c p' here),
            length-fate_bytes pread c p' here v.0,
            same,
          ))
        (omega (arith, unwrapped)) found
  where
    unwrapped : wrap c (offset + p.p_filesz) ≡ offset + p.p_filesz
    unwrapped = wrap_small c (offset + p.p_filesz) (omega arith)

    same : p'.p_filesz ≡ p.p_filesz
    same = ap (λ (t : Phdr). t.p_filesz) (head-eq_of_cons-eq m)

module _ (arch : Arch) (laws : NotesLaws arch) (k : Kernel) (s : OpencoreImpl)
    (r : IsReady arch.elf_class laws.notes s) (opens : k.opens_mem s.pid ≡ true) where
  open arch use {elf_class as c}

  -- The answers of the disk to all writes: those before the segments go well.
  abbrev pub core_script : List (Phdr × Fate) → List Outcome
  core_script ss = completes (length (front_writes arch laws k s)) ++ script ss

  spoiled_bytes :
      (os : List Outcome)
      → (write_core arch k s (fresh (completes (length (front_writes arch laws k s)) ++ os))).1
        ≡ write_segments
            (k.pread s.pid)
            c
            4096
            (placed c s).phdr
            (at_end (front arch laws k s r opens) os)
  unfolding write_core write_core_program_headers write_core_note_header
  spoiled_bytes os =
      ap
        (write_core_load_segment (k.opens_mem s.pid) (k.pread s.pid) c s.align_size
          (placed c s).phdr)
        (front_calls arch laws k s (completes (length (front_writes arch laws k s)) ++ os)
          ∙ fwrite_all-completes (front_writes arch laws k s) [] os)
      ∙ load_lem (k.opens_mem s.pid) (k.pread s.pid) c s.align_size (placed c s).phdr _ opens r.page

  started : 0 < length (front arch laws k s r opens)
  started = omega (arith, length-front arch laws k s r)

  -- Suppose that the tables are ready, that the process memory can be opened, that the disk takes
  -- what is written before the segments, and that for each dumped segment it takes all of its
  -- blocks, or fails in one of them other than for want of space and then takes the zero pages. Then
  -- at the place that each program header of the file names, as long as it says, are the bytes that
  -- are read of the segment, or zeros if a write of it failed.
  pub segment_survives :
      (ss : List (Phdr × Fate)) (i : ℕ) (q : Phdr) (fate : Fate)
      → All Fits ss
      → map (λ s. s.0) ss ≡ core_phdrs arch k s
      → get_elem? ss i ≡ some (q, fate)
      → take q.p_filesz (drop q.p_offset (write_core arch k s (fresh (core_script ss))).1.bytes)
        ≡ fate_bytes (k.pread s.pid) c q fate
  unfolding write_core write_core_program_headers write_core_note_header
  segment_survives ss i q fate v m found =
      ap (λ ys. take q.p_filesz (drop q.p_offset ys))
        (ap (λ f. f.bytes)
          (spoiled_bytes (script ss)
            ∙ ap
                (λ ps.
                  write_segments (k.pread s.pid) c 4096 ps
                    (at_end (front arch laws k s r opens) (script ss)))
                (sym m)
            ∙ (write_segments-fates (k.pread s.pid) c ss (front arch laws k s r opens) v
                started).0))
      ∙ outcome_slice (k.pread s.pid) c ss s.phdr (start arch laws k s r opens)
          (front arch laws k s r opens) i q fate v (m ∙ placed_phdrs_lem arch laws k s r)
          (sym (length-front arch laws k s r)) (omega (arith, r.fits)) found
