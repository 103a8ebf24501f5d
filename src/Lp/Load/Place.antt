-- ===== src/Lp/Load/Place.antt =====
-- Where WriteCoreProgramHeaders says that a segment lies, and where WriteCoreLoadSegment puts it.
use open_core_sdk.Prelude.{
  ℕ, zero, suc, ◌+◌, ◌%◌, ◌^◌, ◌<◌, ◌≡◌, refl, sym, ap, subst, arith, List, [], ◌∷◌, ◌++◌,
  append_assoc, some, some-inj, length, length-append, take, drop, get_elem?, drop-append,
  take-append, All,
}
use open_core_sdk.Elf.{ElfClass, class32, class64, word_bits, wrap, Phdr}
use open_core_sdk.Elf.Wrap.{wrap_small}
use open_core_sdk.Lp.Write.{place_phdrs}
use open_core_sdk.Lp.Load.Healthy.{
  segment_bytes, segments_bytes, IsPaged, total_filesz, length-segment_bytes,
}

abbrev pub at_offset : ℕ → Phdr → Phdr
at_offset offset p = record p { p_offset = offset }

at_offset-IsPaged : (offset : ℕ) {p : Phdr} → IsPaged p → IsPaged (at_offset offset p)
at_offset-IsPaged offset v = record {
  whole = v.whole;
  counted = v.counted;
  all_or_none = v.all_or_none;
}

pub place_phdrs-IsPaged :
    (c : ElfClass) (offset : ℕ) (ps : List Phdr)
    → All IsPaged ps
    → All IsPaged (place_phdrs c offset ps)
unfolding place_phdrs
place_phdrs-IsPaged c offset [] v = tt
place_phdrs-IsPaged c offset (p ∷ ps) (v, vs) =
    (at_offset-IsPaged offset v, place_phdrs-IsPaged c (wrap c (offset + p.p_filesz)) ps vs)

pub length-place_phdrs :
    (c : ElfClass) (offset : ℕ) (ps : List Phdr) → length (place_phdrs c offset ps) ≡ length ps
unfolding place_phdrs
length-place_phdrs c offset [] = refl
length-place_phdrs c offset (p ∷ ps) =
    ap suc (length-place_phdrs c (wrap c (offset + p.p_filesz)) ps)

pub total_filesz-place_phdrs :
    (c : ElfClass) (offset : ℕ) (ps : List Phdr)
    → total_filesz (place_phdrs c offset ps) ≡ total_filesz ps
unfolding place_phdrs
total_filesz-place_phdrs c offset [] = refl
total_filesz-place_phdrs c offset (p ∷ ps) =
    ap (λ (t : ℕ). p.p_filesz + t) (total_filesz-place_phdrs c (wrap c (offset + p.p_filesz)) ps)

-- With nothing wrapped, each header's offset is where its bytes stand in the file.
pub place_phdrs_slice :
    (pread : ℕ → ℕ → List ℕ) (c : ElfClass) (ps : List Phdr) (offset : ℕ) (front : List ℕ) (i : ℕ)
    (q : Phdr)
    → All IsPaged ps
    → offset ≡ length front
    → offset + total_filesz ps < 2 ^ word_bits c
    → get_elem? (place_phdrs c offset ps) i ≡ some q
    → take q.p_filesz
        (drop q.p_offset (front ++ segments_bytes pread c 4096 (place_phdrs c offset ps)))
      ≡ segment_bytes pread c 4096 q
unfolding place_phdrs segments_bytes
place_phdrs_slice pread c [] offset front i q v e fits found = cc
place_phdrs_slice pread c (p ∷ ps) offset front zero q (v, vs) e fits found =
    subst
      (λ t.
        take t.p_filesz
          (drop t.p_offset (front ++ (segment_bytes pread c 4096 (at_offset offset p) ++ rest)))
        ≡ segment_bytes pread c 4096 t)
      (some-inj found)
      (rw (drop-append offset front (here ++ rest) e) (
        take-append p.p_filesz here rest
          (sym (length-segment_bytes pread c (at_offset-IsPaged offset v)))))
  where
    here : List ℕ
    here = segment_bytes pread c 4096 (at_offset offset p)

    rest : List ℕ
    rest = segments_bytes pread c 4096 (place_phdrs c (wrap c (offset + p.p_filesz)) ps)
place_phdrs_slice pread c (p ∷ ps) offset front (suc i) q (v, vs) e fits found =
    rw (← append_assoc front here rest) (
      place_phdrs_slice pread c ps (wrap c (offset + p.p_filesz)) (front ++ here) i q vs
        (rw unwrapped (
          omega (
            arith,
            length-append front here,
            length-segment_bytes pread c (at_offset-IsPaged offset v),
          )))
        (rw unwrapped (omega arith)) found)
  where
    here : List ℕ
    here = segment_bytes pread c 4096 (at_offset offset p)

    rest : List ℕ
    rest = segments_bytes pread c 4096 (place_phdrs c (wrap c (offset + p.p_filesz)) ps)

    unwrapped : wrap c (offset + p.p_filesz) ≡ offset + p.p_filesz
    unwrapped = wrap_small c (offset + p.p_filesz) (omega arith)

-- Each offset is a multiple of the page size, so that the segment can be mapped from the file.
pub place_phdrs_aligned :
    (c : ElfClass) (ps : List Phdr) (offset : ℕ) (i : ℕ) (q : Phdr)
    → All IsPaged ps
    → offset % 4096 ≡ 0
    → get_elem? (place_phdrs c offset ps) i ≡ some q
    → q.p_offset % 4096 ≡ 0
unfolding place_phdrs
place_phdrs_aligned c [] offset i q v e found = cc
place_phdrs_aligned c (p ∷ ps) offset zero q v e found =
    subst (λ (t : Phdr). t.p_offset % 4096 ≡ 0) (some-inj found) e
place_phdrs_aligned c (p ∷ ps) offset (suc i) q (v, vs) e found =
    place_phdrs_aligned c ps (wrap c (offset + p.p_filesz)) i q vs (next c) found
  where
    next : (c : ElfClass) → wrap c (offset + p.p_filesz) % 4096 ≡ 0
    next class32 = ground arith
    next class64 = ground arith
