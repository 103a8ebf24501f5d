-- ===== src/Examples/Classes.antt =====
-- The theorems on the base class and the classes of the processors, on the small process of Examples.
use open_core_sdk.Prelude.{◌⊎◌}
use open_core_sdk.Prelude.{
  ℕ, ◌≡◌, refl, true, false, arith, [], ◌∷◌, ◌++◌, map, none, length, bit_or,
}
use open_core_sdk.Cpu.{special_segment}
use open_core_sdk.Prelude.{inr}
use open_core_sdk.Opencore.Filter.{codes}
use open_core_sdk.Opencore.Threads.{stop_the_world, continue}
use open_core_sdk.Opencore.Threads.Laws.{attachable, continue-stop_the_world}
use open_core_sdk.Opencore.Handlers.{enable, disable, is_enabled}
use open_core_sdk.Opencore.Handlers.Laws.{disable-enable, enable-enable}
use open_core_sdk.Opencore.DumpName.{
  output_name, name_flag, name_parts, dir_prefix, add_part, add_parts, digits, comm_name, c_string,
}
use open_core_sdk.Prelude.Joined.{chosen, joined}
use open_core_sdk.Opencore.DumpName.Laws.{directory, heading, named, output_name-joined}
use open_core_sdk.Lp.Dump.Minidump.{PointsInto, minidump-keeps}
use open_core_sdk.Cpu.Arm64.{arm64}
use open_core_sdk.Cpu.X86.{x86}
use open_core_sdk.Cpu.X86_64.{x86_64}
use open_core_sdk.Cpu.Riscv64.{riscv64}
use open_core_sdk.Cpu.Announced.{
  Announced, arm64-Announced, arm-Announced, x86_64-Announced, x86-Announced, riscv64-Announced,
}
use open_core_sdk.Lp.{OpencoreImpl, PrStatus}
use open_core_sdk.Lp.Dump.{apply_vma_flag}
use open_core_sdk.Cpu.Arm.{arm}
use open_core_sdk.Examples.{page, one_page, unused, placed_page, two_handlers, willing, names}

disable-enable_example :
    let (enabled, s') = enable willing 99 two_handlers in
    let (disabled, s'') = disable willing 0 s' in
    (enabled ≡ true)
    × (s'.actions ≡ map (λ a. 99) two_handlers.actions)
    × (disabled ≡ true)
    × (is_enabled s'' ≡ false)
    × (s''.actions ≡ two_handlers.actions)
disable-enable_example = disable-enable willing 99 0 two_handlers (λ j. refl) (λ j. refl) refl refl

output_name-joined_example :
    output_name names (codes "/tmp") 39 5 6 none
    ≡ directory (codes "/tmp") ++ (heading 39 ++ joined b'_' (chosen (named names 39 5 6)))
output_name-joined_example = output_name-joined names (codes "/tmp") 39 5 6

-- The default flags: "/tmp/core.app_5_17".
output_name_test : output_name names (codes "/tmp") 39 5 6 none ≡ codes "/tmp/core.app_5_17"
unfolding output_name name_flag add_parts add_part name_parts dir_prefix digits comm_name c_string
output_name_test = refl

continue-stop_the_world_example :
    continue (stop_the_world one_page 5 unused.base)
    ≡ (attachable one_page ((b'.' ∷ []) ∷ (b'5' ∷ []) ∷ []), record (unused.base) { threads = [] })
continue-stop_the_world_example =
    continue-stop_the_world one_page 5 ((b'.' ∷ []) ∷ (b'5' ∷ []) ∷ []) (unused.base) refl refl

abbrev at_page : PrStatus
at_page = record { pr_pid = 5; pr_reg = 0x1010 ∷ [] }

minidump-keeps_example :
    let q =
      apply_vma_flag (bit_or 1 (special_segment (0 ∷ []) 64 (at_page ∷ []) page)) placed_page in
    ((q.p_filesz ≡ placed_page.p_memsz) × PointsInto (0 ∷ []) at_page page)
    ⊎ ((q.p_filesz ≡ 0) × (¬ PointsInto (0 ∷ []) at_page page))
minidump-keeps_example = minidump-keeps at_page page (0 ∷ []) 64 1 [] placed_page refl (inr refl)

-- One stopped thread.
abbrev stopped : OpencoreImpl
stopped = record unused {
  base = record (unused.base) { threads = record { pid = 5; attached = true } ∷ [] };
}

arm64-Announced_example : Announced arm64 one_page stopped
arm64-Announced_example = arm64-Announced one_page stopped refl refl (omega arith)

arm-Announced_example : Announced arm one_page stopped
arm-Announced_example = arm-Announced one_page stopped refl refl (omega arith)

x86_64-Announced_example : Announced x86_64 one_page stopped
x86_64-Announced_example = x86_64-Announced one_page stopped refl refl (omega arith)

x86-Announced_example : Announced x86 one_page stopped
x86-Announced_example = x86-Announced one_page stopped refl refl (omega arith)

-- `prnum` as CreateCorePrStatus sets its own.
abbrev entries : OpencoreImpl → ℕ
entries s = length s.prstatus

riscv64-Announced_test : Announced (riscv64 entries) one_page stopped
riscv64-Announced_test =
    riscv64-Announced entries (λ s. refl) one_page stopped refl refl (omega arith)

enable-enable_example :
    let (ok, s') = enable willing 99 two_handlers in
    ((ok ≡ true) × (enable willing 99 s' ≡ (false, s')))
    ⊎ ((ok ≡ false) × (is_enabled s' ≡ is_enabled two_handlers))
enable-enable_example = enable-enable willing 99 two_handlers
