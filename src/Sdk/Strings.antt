-- ===== src/Sdk/Strings.antt =====
-- coreFlagToString and coreFilterToString
-- (opencore/src/main/java/penguin/opencore/sdk/Coredump.java).
pub mod Laws
use open_core_sdk.Prelude.{ℕ, Bool, true, false, List, [], ◌∷◌, ◌++◌, ◌==◌, if◌then◌else◌}
use Prim.Native.String.{String}
use open_core_sdk.Opencore.{
  has_bit, flag_core, flag_process_comm, flag_pid, flag_thread_comm, flag_tid, flag_timestamp,
  filter_special_vma, filter_file_vma, filter_shared_vma, filter_sanitizer_shadow_vma,
  filter_non_read_vma, filter_signal_context, filter_minidump, filter_javaheap_vma,
  filter_jit_cache_vma,
}
use open_core_sdk.Opencore.Filter.{codes}

-- One test of the chain: `sb` and `need_seq` before and after it.
unfoldable pub append_name : Bool → List ℕ → List ℕ × Bool → List ℕ × Bool
append_name set name (sb, need_seq) =
    if set then ((if need_seq then sb ++ (b'|' ∷ []) else sb) ++ name, true) else (sb, need_seq)

unfoldable pub append_names : ℕ → List (ℕ × String) → List ℕ × Bool → List ℕ × Bool
append_names value [] names = names
append_names value ((bit, name) ∷ rest) names =
    append_names value rest (append_name (has_bit value bit) (codes name) names)

-- The bits that coreFlagToString tests, with what it appends for each.
abbrev pub flag_names : List (ℕ × String)
flag_names =
    (flag_core, "FLAG_CORE")
    ∷ (flag_process_comm, "FLAG_PROCESS_COMM")
    ∷ (flag_pid, "FLAG_PID")
    ∷ (flag_thread_comm, "FLAG_THREAD_COMM")
    ∷ (flag_tid, "FLAG_TID")
    ∷ (flag_timestamp, "FLAG_TIMESTAMP")
    ∷ []

unfoldable pub core_flag_to_string : ℕ → List ℕ
core_flag_to_string flag =
    if flag == 0 then codes "FLAG_NONE" else (append_names flag flag_names ([], false)).0

-- The bits that coreFilterToString tests. For FILTER_NON_READ_VMA it appends the name of a flag.
abbrev pub filter_names : List (ℕ × String)
filter_names =
    (filter_special_vma, "FILTER_SPECIAL_VMA")
    ∷ (filter_file_vma, "FILTER_FILE_VMA")
    ∷ (filter_shared_vma, "FILTER_SHARED_VMA")
    ∷ (filter_sanitizer_shadow_vma, "FILTER_SANITIZER_SHADOW_VMA")
    ∷ (filter_non_read_vma, "FLAG_TID")
    ∷ (filter_signal_context, "FILTER_SIGNAL_CONTEXT")
    ∷ (filter_minidump, "FILTER_MINIDUMP")
    ∷ (filter_javaheap_vma, "FILTER_JAVAHEAP_VMA")
    ∷ (filter_jit_cache_vma, "FILTER_JIT_CACHE_VMA")
    ∷ []

unfoldable pub core_filter_to_string : ℕ → List ℕ
core_filter_to_string filter =
    if filter == 0 then codes "FILTER_NONE" else (append_names filter filter_names ([], false)).0
