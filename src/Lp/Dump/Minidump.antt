-- ===== src/Lp/Dump/Minidump.antt =====
-- The filter FILTER_MINIDUMP: IsSpecialFilterSegment of the processors' classes
-- (opencore/src/main/cpp/opencore/arm64/opencore.cpp and its like) and SpecialCoreFilter.
use open_core_sdk.Prelude.{if◌then◌else◌, ◌∙◌, ap, sym, Bool}
use open_core_sdk.Prelude.{
  ℕ, ◌≤◌, ◌<◌, ◌≡◌, refl, ◌⊎◌, inl, inr, arith, true, false, List, [], ◌∷◌, some, bit_or, ltb, leb,
  get_elem?, Bool-cases, zero, suc, some-inj, lt→ltb, le→leb, ◌&&◌,
}
use open_core_sdk.Elf.{Phdr}
use open_core_sdk.Kernel.{VirtualMemoryArea}
use open_core_sdk.Opencore.{has_bit, filter_minidump, vma_include, vma_null}
use open_core_sdk.Lp.{PrStatus}
use open_core_sdk.Lp.Dump.{apply_vma_flag}
use open_core_sdk.Cpu.{register, points_into, special_segment}

-- A checked register with an address in the mapping.
abbrev pub PointsInto : List ℕ → PrStatus → VirtualMemoryArea → Type 0
PointsInto checked p vma =
    (j : ℕ) × (i : ℕ) × (get_elem? checked j ≡ some i)
    × (vma.begin ≤ register p i)
    × (register p i < vma.end)

module _ (p : PrStatus) (vma : VirtualMemoryArea) where
  points_into-true :
      (checked : List ℕ) → PointsInto checked p vma → points_into checked p vma ≡ true
  unfolding points_into
  points_into-true [] (j, i, found, _, _) = cc
  points_into-true (r ∷ checked) (zero, i, found, l, u) =
      let e = some-inj found in
      rw (e, le→leb vma.begin (register p i) l, lt→ltb (register p i) vma.end u) refl
  points_into-true (r ∷ checked) (suc j, i, found, l, u) =
      let rest = points_into-true checked (j, i, found, l, u) in ground arith

  PointsInto-points_into :
      (checked : List ℕ) → points_into checked p vma ≡ true → PointsInto checked p vma
  unfolding points_into
  PointsInto-points_into [] h = cc
  PointsInto-points_into (r ∷ checked) h =
      elim (Bool-cases (leb vma.begin (register p r) && ltb (register p r) vma.end)) [
        | inl e ↦ (0, r, refl, ground arith, ground arith)
        | inr e ↦ later (PointsInto-points_into checked (rest e))
      ]
    where
      rest :
          leb vma.begin (register p r) && ltb (register p r) vma.end ≡ false
          → points_into checked p vma ≡ true
      rest e = ground arith

      later : PointsInto checked p vma → PointsInto (r ∷ checked) p vma
      later (j, i, found, l, u) = (suc j, i, found, l, u)

  minidump_cases :
      (checked : List ℕ) (filesz memsz : ℕ)
      → filesz ≡ (if points_into checked p vma then memsz else 0)
      → ((filesz ≡ memsz) × PointsInto checked p vma)
        ⊎ ((filesz ≡ 0) × (¬ PointsInto checked p vma))
  minidump_cases checked filesz memsz e = elim (Bool-cases (points_into checked p vma)) [
    | inl h ↦ inl (e ∙ ap (λ b. if b then memsz else 0) h, PointsInto-points_into checked h)
    | inr h ↦ inr (
      e ∙ ap (λ b. if b then memsz else 0) h,
      λ inside. absurd (let no : true ≡ false = sym (points_into-true checked inside) ∙ h in cc),
    )
  ]

  flag_filesz :
      (checked : List ℕ) (filter flags : ℕ) (others : List PrStatus) (ph : Phdr)
      → has_bit filter filter_minidump ≡ true
      → (flags ≡ 0) ⊎ (flags ≡ 1)
      → (apply_vma_flag
          (bit_or flags (special_segment checked filter (p ∷ others) vma))
          ph).p_filesz
        ≡ (if points_into checked p vma then ph.p_memsz else 0)
  unfolding apply_vma_flag special_segment
  flag_filesz checked filter flags others ph mini (inl e) =
      rw (e, mini) (by_flag (points_into checked p vma))
    where
      by_flag :
          (b : Bool)
          → (apply_vma_flag (bit_or 0 (if b then vma_include else vma_null)) ph).p_filesz
            ≡ (if b then ph.p_memsz else 0)
      by_flag true = refl
      by_flag false = refl
  flag_filesz checked filter flags others ph mini (inr e) =
      rw (e, mini) (by_flag (points_into checked p vma))
    where
      by_flag :
          (b : Bool)
          → (apply_vma_flag (bit_or 1 (if b then vma_include else vma_null)) ph).p_filesz
            ≡ (if b then ph.p_memsz else 0)
      by_flag true = refl
      by_flag false = refl

  -- With FILTER_MINIDUMP, and VMA_NORMAL or VMA_NULL from the other filters, the segment of a mapping
  -- is dumped whole and one of the checked registers of the dumped thread points into it, or it is
  -- empty and none does.
  pub minidump-keeps :
      (checked : List ℕ) (filter flags : ℕ) (others : List PrStatus) (ph : Phdr)
      → has_bit filter filter_minidump ≡ true
      → (flags ≡ 0) ⊎ (flags ≡ 1)
      → let q =
          apply_vma_flag (bit_or flags (special_segment checked filter (p ∷ others) vma)) ph in
        ((q.p_filesz ≡ ph.p_memsz) × PointsInto checked p vma)
        ⊎ ((q.p_filesz ≡ 0) × (¬ PointsInto checked p vma))
  minidump-keeps checked filter flags others ph mini known =
      minidump_cases checked _ ph.p_memsz (flag_filesz checked filter flags others ph mini known)
