-- ===== src/Lp/Dump/Filtered.antt =====
-- What SpecialCoreFilter leaves of the program headers.
use open_core_sdk.Prelude.{
  ℕ, suc, ◌-◌, ◌%◌, ◌^◌, ◌≤◌, ◌<◌, ◌≡◌, refl, sym, ap, ◌∙◌, inr, subst, arith, List, [], ◌∷◌, map,
  Option, none, some, some-inj, length, All,
}
use mathlib.Core.Option
use open_core_sdk.Elf.{ElfClass, class32, class64, pf_r, pf_w, pf_x, word_bits, Phdr, zero_phdr}
use open_core_sdk.Kernel.{VirtualMemoryArea}
use open_core_sdk.Lp.Prepare.{parser_phdr, add_flag}
use open_core_sdk.Elf.Decode.{IsStorable}
use open_core_sdk.Prelude.{Bool, true, false}
use open_core_sdk.Lp.Load.Healthy.{IsPaged}
use open_core_sdk.Lp.Dump.{apply_vma_flag, filter_phdrs}

-- A line of /proc/PID/maps as the kernel prints it: whole pages, in order, within the address space
-- and shorter than 8 TiB.
pub record IsMapping (c : ElfClass) (vma : VirtualMemoryArea) : Type 0 where
  pub begins_page : vma.begin % 4096 ≡ 0
  pub ends_page : vma.end % 4096 ≡ 0
  pub ordered : vma.begin ≤ vma.end
  pub addressable : vma.end < 2 ^ word_bits c
  pub short : vma.end - vma.begin < 2 ^ 43

-- The header of a mapping, before any filter.
pub parser_phdr-IsPaged :
    (c : ElfClass) {vma : VirtualMemoryArea}
    → IsMapping c vma
    → IsPaged (parser_phdr c 4096 zero_phdr vma)
unfolding parser_phdr
parser_phdr-IsPaged class32 v = record {
  whole = omega (arith, v);
  counted = omega (arith, v);
  all_or_none = inr refl;
}
parser_phdr-IsPaged class64 v = record {
  whole = omega (arith, v);
  counted = omega (arith, v);
  all_or_none = inr refl;
}

flags_word : (x w r : Bool) → add_flag x pf_x (add_flag w pf_w (add_flag r pf_r 0)) < 2 ^ 32
unfolding add_flag
flags_word true true true = omega arith
flags_word true true false = omega arith
flags_word true false true = omega arith
flags_word true false false = omega arith
flags_word false true true = omega arith
flags_word false true false = omega arith
flags_word false false true = omega arith
flags_word false false false = omega arith

parser_phdr-IsStorable :
    (c : ElfClass) (vma : VirtualMemoryArea) → IsStorable c (parser_phdr c 4096 zero_phdr vma)
unfolding parser_phdr
parser_phdr-IsStorable class32 vma = record {
  type_word = omega arith;
  flags_word = flags_word _ _ _;
  offset_word = omega arith;
  vaddr_word = omega arith;
  paddr_word = omega arith;
  filesz_word = omega arith;
  memsz_word = omega arith;
  align_word = omega arith;
}
parser_phdr-IsStorable class64 vma = record {
  type_word = omega arith;
  flags_word = flags_word _ _ _;
  offset_word = omega arith;
  vaddr_word = omega arith;
  paddr_word = omega arith;
  filesz_word = omega arith;
  memsz_word = omega arith;
  align_word = omega arith;
}

pub parsed-IsStorable :
    (c : ElfClass) (maps : List VirtualMemoryArea)
    → All (IsStorable c) (map (parser_phdr c 4096 zero_phdr) maps)
parsed-IsStorable c [] = tt
parsed-IsStorable c (vma ∷ maps) = (parser_phdr-IsStorable c vma, parsed-IsStorable c maps)

apply_vma_flag-IsStorable :
    (c : ElfClass) (flags : ℕ) (p : Phdr) → IsStorable c p → IsStorable c (apply_vma_flag flags p)
unfolding apply_vma_flag
apply_vma_flag-IsStorable c flags p v = ground arith

apply_vma_flag-IsPaged : (flags : ℕ) (p : Phdr) → IsPaged p → IsPaged (apply_vma_flag flags p)
unfolding apply_vma_flag
apply_vma_flag-IsPaged flags p v = ground arith

pub parsed-IsPaged :
    (c : ElfClass) (maps : List VirtualMemoryArea)
    → All (IsMapping c) maps
    → All IsPaged (map (parser_phdr c 4096 zero_phdr) maps)
parsed-IsPaged c [] v = tt
parsed-IsPaged c (vma ∷ maps) (v, vs) = (parser_phdr-IsPaged c v, parsed-IsPaged c maps vs)

-- Inversion of the two steps of `filter_phdrs`.
bind-eq-some :
    {A B : Type 0} (o : Option A) (f : A → Option B) {b : B}
    → Option.bind o f ≡ some b
    → (a : A) × (o ≡ some a) × (f a ≡ some b)
unfolding Option.bind
bind-eq-some none f h = cc
bind-eq-some (some a) f h = (a, refl, h)

pub map-eq-some :
    {A B : Type 0} (o : Option A) (f : A → B) {b : B}
    → Option.map f o ≡ some b
    → (a : A) × (o ≡ some a) × (f a ≡ b)
map-eq-some none f h = cc
map-eq-some (some a) f h = (a, refl, some-inj h)

pub filter_phdrs_lem :
    (vma_flag : VirtualMemoryArea → Option ℕ) (maps : List VirtualMemoryArea) (ps qs : List Phdr)
    → length maps ≡ length ps
    → All IsPaged ps
    → filter_phdrs vma_flag maps ps ≡ some qs
    → All IsPaged qs × (length qs ≡ length ps)
unfolding filter_phdrs
filter_phdrs_lem vma_flag [] ps qs e v h =
    (subst (All IsPaged) (some-inj h) v, ap length (sym (some-inj h)))
filter_phdrs_lem vma_flag (vma ∷ maps) [] qs e v h = absurd (omega arith)
filter_phdrs_lem vma_flag (vma ∷ maps) (p ∷ ps) qs e (v, vs) h =
    let (flags, _, h') = bind-eq-some (vma_flag vma) _ h in
    let (rest, hr, hq) = map-eq-some (filter_phdrs vma_flag maps ps) _ h' in
    let (vr, er) = filter_phdrs_lem vma_flag maps ps rest (omega arith) vs hr in
    (subst (All IsPaged) hq (apply_vma_flag-IsPaged flags p v, vr), ap length (sym hq) ∙ ap suc er)

pub filter_phdrs-IsStorable :
    (c : ElfClass) (vma_flag : VirtualMemoryArea → Option ℕ) (maps : List VirtualMemoryArea)
    (ps qs : List Phdr)
    → All (IsStorable c) ps
    → filter_phdrs vma_flag maps ps ≡ some qs
    → All (IsStorable c) qs
unfolding filter_phdrs
filter_phdrs-IsStorable c vma_flag [] ps qs v h = subst (All (IsStorable c)) (some-inj h) v
filter_phdrs-IsStorable c vma_flag (vma ∷ maps) [] qs v h =
    subst (All (IsStorable c)) (some-inj h) tt
filter_phdrs-IsStorable c vma_flag (vma ∷ maps) (p ∷ ps) qs (v, vs) h =
    let (flags, _, h') = bind-eq-some (vma_flag vma) _ h in
    let (rest, hr, hq) = map-eq-some (filter_phdrs vma_flag maps ps) _ h' in
    subst (All (IsStorable c)) hq
      (apply_vma_flag-IsStorable c flags p v, filter_phdrs-IsStorable c vma_flag maps ps rest vs hr)
