-- ===== src/Opencore/Filter/Rules.antt =====
-- Opencore::IsFilterSegment as a set of rules (opencore/src/main/cpp/opencore/opencore.cpp).
use Prim.Native.String.{String}
use open_core_sdk.Prelude.{
  eq_bytes, take, length, ℕ, ◌≡◌, refl, ap, Bool, true, false, ◌&&◌, ◌||◌, List, [], ◌∷◌, Option,
  some, ltb, ◌==◌, if◌then◌else◌,
}
use open_core_sdk.Kernel.{VirtualMemoryArea}
use open_core_sdk.Opencore.{
  has_bit, filter_special_vma, filter_file_vma, filter_shared_vma, filter_sanitizer_shadow_vma,
  filter_non_read_vma, filter_javaheap_vma, filter_jit_cache_vma, vma_normal, vma_null,
}
use open_core_sdk.Opencore.Filter.{
  codes, is_special, is_sanitizer_shadow, file_is, file_starts, filter_anonymous, is_filter_segment,
}

-- The file has one of the names.
abbrev pub is_one_of : List String → List ℕ → Bool
is_one_of [] file = false
is_one_of (name ∷ names) file = eq_bytes file (codes name) || is_one_of names file

-- The file's name begins with the given text.
abbrev pub begins : String → List ℕ → Bool
begins text file = eq_bytes (take (length (codes text)) file) (codes text)

-- A flag of the filter, and the mappings that it leaves out.
pub record Rule : Type 0 where
  pub flag : ℕ
  pub matches : VirtualMemoryArea → Bool

abbrev pub special_rule : Rule
special_rule = record {
  flag = filter_special_vma;
  matches = λ vma.
      is_one_of ("/dev/binderfs/hwbinder" ∷ "/dev/binderfs/binder" ∷ "[vvar]" ∷ "/dev/mali0" ∷ [])
        vma.file;
}

abbrev pub later_rules : List Rule
later_rules =
    record { flag = filter_shared_vma; matches = λ vma. vma.flags3 == b's' || vma.flags3 == b'S' }
    ∷ record {
      flag = filter_sanitizer_shadow_vma;
      matches = λ vma.
          is_one_of ("[anon:low shadow]" ∷ "[anon:high shadow]" ∷ []) vma.file
          || begins "[anon:hwasan" vma.file;
    }
    ∷ record {
      flag = filter_non_read_vma;
      matches = λ vma. vma.flags0 == b'-' && (vma.flags1 == b'-' && vma.flags2 == b'-');
    }
    ∷ record { flag = filter_javaheap_vma; matches = λ vma. begins "[anon:dalvik" vma.file }
    ∷ record { flag = filter_jit_cache_vma; matches = λ vma. begins "/memfd:jit" vma.file }
    ∷ []

abbrev pub rules : List Rule
rules = special_rule ∷ later_rules

abbrev pub leaves_out : ℕ → VirtualMemoryArea → List Rule → Bool
leaves_out filter vma [] = false
leaves_out filter vma (r ∷ rs) =
    (has_bit filter r.flag && r.matches vma) || leaves_out filter vma rs

-- The files that FILTER_FILE_VMA is about.
abbrev pub is_read_only_file : VirtualMemoryArea → Bool
is_read_only_file vma = ltb 0 vma.inode && vma.flags1 == b'-'

any_of_four : (a b c d : Bool) → (a || b || c || d) ≡ (a || (b || (c || (d || false))))
any_of_four true b c d = refl
any_of_four false true c d = refl
any_of_four false false true d = refl
any_of_four false false false true = refl
any_of_four false false false false = refl

any_of_three : (a b c : Bool) → (a || b || c) ≡ ((a || (b || false)) || c)
any_of_three true b c = refl
any_of_three false true c = refl
any_of_three false false c = refl

is_special-special_rule : (vma : VirtualMemoryArea) → is_special vma ≡ special_rule.matches vma
unfolding is_special file_is
is_special-special_rule vma =
    any_of_four (eq_bytes vma.file (codes "/dev/binderfs/hwbinder"))
      (eq_bytes vma.file (codes "/dev/binderfs/binder")) (eq_bytes vma.file (codes "[vvar]"))
      (eq_bytes vma.file (codes "/dev/mali0"))

is_sanitizer_shadow-begins :
    (vma : VirtualMemoryArea)
    → is_sanitizer_shadow vma ≡ (
        is_one_of ("[anon:low shadow]" ∷ "[anon:high shadow]" ∷ []) vma.file
        || begins "[anon:hwasan" vma.file)
unfolding is_sanitizer_shadow file_is file_starts
is_sanitizer_shadow-begins vma =
    any_of_three (eq_bytes vma.file (codes "[anon:low shadow]"))
      (eq_bytes vma.file (codes "[anon:high shadow]")) (begins "[anon:hwasan" vma.file)

chain :
    (a b c d e : Bool) (null normal : ℕ)
    → (if a
        then null
        else if b
        then null
        else if c
        then null
        else if d
        then null
        else if e
        then null
        else normal)
      ≡ (if a || (b || (c || (d || (e || false)))) then null else normal)
chain true b c d e null normal = refl
chain false true c d e null normal = refl
chain false false true d e null normal = refl
chain false false false true e null normal = refl
chain false false false false true null normal = refl
chain false false false false false null normal = refl

filter_anonymous-rules :
    (filter : ℕ) (vma : VirtualMemoryArea)
    → filter_anonymous filter vma
      ≡ (if leaves_out filter vma later_rules then vma_null else vma_normal)
unfolding filter_anonymous file_starts
filter_anonymous-rules filter vma = rw (is_sanitizer_shadow-begins vma) (
    chain (has_bit filter filter_shared_vma && (vma.flags3 == b's' || vma.flags3 == b'S'))
      (has_bit filter filter_sanitizer_shadow_vma
        && (is_one_of ("[anon:low shadow]" ∷ "[anon:high shadow]" ∷ []) vma.file
            || begins "[anon:hwasan" vma.file))
      (has_bit filter filter_non_read_vma
        && (vma.flags0 == b'-' && (vma.flags1 == b'-' && vma.flags2 == b'-')))
      (has_bit filter filter_javaheap_vma && begins "[anon:dalvik" vma.file)
      (has_bit filter filter_jit_cache_vma && begins "/memfd:jit" vma.file) vma_null vma_normal)

-- For a mapping that FILTER_FILE_VMA is not about, or with that flag off, IsFilterSegment answers
-- VMA_NULL if one of the six rules with its flag set matches the mapping, and VMA_NORMAL if none
-- does: the four special files, shared mappings, the sanitizer's shadows, mappings without any right,
-- the Java heap and the JIT cache.
pub is_filter_segment-rules :
    (need_filter_file : VirtualMemoryArea → Option ℕ) (filter : ℕ) (vma : VirtualMemoryArea)
    → (has_bit filter filter_file_vma && is_read_only_file vma) ≡ false
    → is_filter_segment need_filter_file filter vma
      ≡ some (if leaves_out filter vma rules then vma_null else vma_normal)
unfolding is_filter_segment
is_filter_segment-rules need_filter_file filter vma off =
    rw (off, is_special-special_rule vma)
      (by_special (has_bit filter filter_special_vma && special_rule.matches vma))
  where
    by_special :
        (b : Bool)
        → (if b then some vma_null else some (filter_anonymous filter vma))
          ≡ some (if b || leaves_out filter vma later_rules then vma_null else vma_normal)
    by_special true = refl
    by_special false = ap some (filter_anonymous-rules filter vma)
