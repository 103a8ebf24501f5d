-- ===== src/Opencore/Filter.antt =====
-- Opencore::IsFilterSegment (opencore/src/main/cpp/opencore/opencore.cpp): which mappings are left
-- out of the core file.
pub mod Rules
use Prim.Native.Char.{code}
use Prim.Native.String.{String}
use open_core_sdk.Prelude.{
  ℕ, Bool, ◌&&◌, ◌||◌, List, [], ◌∷◌, Option, some, ◌==◌, ltb, eq_bytes, take, if◌then◌else◌,
}
use open_core_sdk.Kernel.{VirtualMemoryArea}
use open_core_sdk.Opencore.{
  has_bit, filter_special_vma, filter_file_vma, filter_shared_vma, filter_sanitizer_shadow_vma,
  filter_non_read_vma, filter_javaheap_vma, filter_jit_cache_vma, vma_normal, vma_null,
}

-- The bytes of an ASCII literal.
abbrev pub codes : String → List ℕ
codes String.[] = []
codes (String.◌∷◌ c s) = code c ∷ codes s

-- `file == "..."`, and `file.compare(0, n, "...") == 0`, which compares the first `n` bytes of the
-- name (all of a shorter one) with the whole literal.
unfoldable pub file_is : VirtualMemoryArea → String → Bool
file_is vma s = eq_bytes vma.file (codes s)

unfoldable pub file_starts : VirtualMemoryArea → ℕ → String → Bool
file_starts vma n s = eq_bytes (take n vma.file) (codes s)

unfoldable pub is_special : VirtualMemoryArea → Bool
is_special vma =
    file_is vma "/dev/binderfs/hwbinder"
    || file_is vma "/dev/binderfs/binder"
    || file_is vma "[vvar]"
    || file_is vma "/dev/mali0"

unfoldable pub is_sanitizer_shadow : VirtualMemoryArea → Bool
is_sanitizer_shadow vma =
    file_is vma "[anon:low shadow]"
    || file_is vma "[anon:high shadow]"
    || file_starts vma 12 "[anon:hwasan"

-- The tests after that of FILTER_FILE_VMA, in order; each that fits returns.
unfoldable pub filter_anonymous : ℕ → VirtualMemoryArea → ℕ
filter_anonymous filter vma =
    if has_bit filter filter_shared_vma && (vma.flags3 == b's' || vma.flags3 == b'S')
    then vma_null
    else if has_bit filter filter_sanitizer_shadow_vma && is_sanitizer_shadow vma
    then vma_null
    else if has_bit filter filter_non_read_vma
        && (vma.flags0 == b'-' && (vma.flags1 == b'-' && vma.flags2 == b'-'))
    then vma_null
    else if has_bit filter filter_javaheap_vma && file_starts vma 12 "[anon:dalvik"
    then vma_null
    else if has_bit filter filter_jit_cache_vma && file_starts vma 10 "/memfd:jit"
    then vma_null
    else vma_normal

-- `need_filter_file` is the virtual method NeedFilterFile; `none` is a fault inside it.
unfoldable pub is_filter_segment : (VirtualMemoryArea → Option ℕ) → ℕ → VirtualMemoryArea → Option ℕ
is_filter_segment need_filter_file filter vma =
    if has_bit filter filter_special_vma && is_special vma
    then some vma_null
    else if has_bit filter filter_file_vma && (ltb 0 vma.inode && vma.flags1 == b'-')
    then need_filter_file vma
    else some (filter_anonymous filter vma)
