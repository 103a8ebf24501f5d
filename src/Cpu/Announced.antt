-- ===== src/Cpu/Announced.antt =====
-- CreateCorePrStatus and WriteCorePrStatus of each processor agree
-- (opencore/src/main/cpp/opencore/arm64/opencore.cpp, arm, x86_64, x86 and riscv64).
use open_core_sdk.Prelude.{ℕ, ◌^◌, ◌<◌, ◌≡◌, sym, ap, ◌∙◌, [], length}
use open_core_sdk.Kernel.{Kernel}
use open_core_sdk.Stream.Append.{concat}
use open_core_sdk.Lp.{OpencoreImpl}
use open_core_sdk.Lp.Dump.{Arch}
use open_core_sdk.Lp.Layout.File.{NotesLaws}
use open_core_sdk.Cpu.Sizes.{thread_notes}
use open_core_sdk.Cpu.Arm64.{arm64}
use open_core_sdk.Cpu.Arm.{arm}
use open_core_sdk.Cpu.X86_64.{x86_64}
use open_core_sdk.Cpu.X86.{x86}
use open_core_sdk.Cpu.Riscv64.{riscv64}
use open_core_sdk.Cpu.Riscv64.Notes.{riscv64-NotesLaws}
use open_core_sdk.Cpu.Arm64.Notes.{arm64-NotesLaws}
use open_core_sdk.Cpu.Arm.Notes.{arm-NotesLaws}
use open_core_sdk.Cpu.X86_64.Notes.{x86_64-NotesLaws}
use open_core_sdk.Cpu.X86.Notes.{x86-NotesLaws}

-- The bytes that are written are as many as were announced.
abbrev pub Announced : Arch → Kernel → OpencoreImpl → Type 0
Announced arch k s =
    let s' = arch.create_core_prstatus k s in
    length (concat (arch.prstatus_writes k s')) ≡ s'.extra_note_filesz

announced :
    (arch : Arch) (laws : NotesLaws arch) (k : Kernel) (s : OpencoreImpl)
    → s.prstatus ≡ []
    → s.extra_note_filesz ≡ 0
    → laws.notes (length s.threads) < 2 ^ 31
    → Announced arch k s
announced arch laws k s e z h =
    laws.writes_size k (arch.create_core_prstatus k s)
    ∙ ap laws.notes (laws.length-create k s e)
    ∙ sym (laws.extra-create k s z h)

-- For an object that has no notes yet, as long as the sizes fit an `int`, WriteCorePrStatus of the
-- class for arm64 writes exactly as many bytes as CreateCorePrStatus has announced.
pub arm64-Announced :
    (k : Kernel) (s : OpencoreImpl)
    → s.prstatus ≡ []
    → s.extra_note_filesz ≡ 0
    → thread_notes 148 1088 (length s.threads) < 2 ^ 31
    → Announced arm64 k s
arm64-Announced = announced arm64 arm64-NotesLaws

-- For an object that has no notes yet, as long as the sizes fit an `int`, WriteCorePrStatus of the
-- class for arm writes exactly as many bytes as CreateCorePrStatus has announced.
pub arm-Announced :
    (k : Kernel) (s : OpencoreImpl)
    → s.prstatus ≡ []
    → s.extra_note_filesz ≡ 0
    → thread_notes 148 168 (length s.threads) < 2 ^ 31
    → Announced arm k s
arm-Announced = announced arm arm-NotesLaws

-- For an object that has no notes yet, as long as the sizes fit an `int`, WriteCorePrStatus of the
-- class for x86_64 writes exactly as many bytes as CreateCorePrStatus has announced.
pub x86_64-Announced :
    (k : Kernel) (s : OpencoreImpl)
    → s.prstatus ≡ []
    → s.extra_note_filesz ≡ 0
    → thread_notes 148 356 (length s.threads) < 2 ^ 31
    → Announced x86_64 k s
x86_64-Announced = announced x86_64 x86_64-NotesLaws

-- For an object that has no notes yet, as long as the sizes fit an `int`, WriteCorePrStatus of the
-- class for x86 writes exactly as many bytes as CreateCorePrStatus has announced.
pub x86-Announced :
    (k : Kernel) (s : OpencoreImpl)
    → s.prstatus ≡ []
    → s.extra_note_filesz ≡ 0
    → thread_notes 148 164 (length s.threads) < 2 ^ 31
    → Announced x86 k s
x86-Announced = announced x86 x86-NotesLaws

-- If the `prnum` of WriteCorePrStatus is the number of entries of the table, then for an object that
-- has no notes yet, as long as the sizes fit an `int`, WriteCorePrStatus of the class for riscv64
-- writes exactly as many bytes as CreateCorePrStatus has announced.
pub riscv64-Announced :
    (prnum : OpencoreImpl → ℕ)
    → ((s : OpencoreImpl) → prnum s ≡ length s.prstatus)
    → (k : Kernel) (s : OpencoreImpl) → s.prstatus ≡ []
    → s.extra_note_filesz ≡ 0
    → thread_notes 148 396 (length s.threads) < 2 ^ 31
    → Announced (riscv64 prnum) k s
riscv64-Announced prnum counts = announced (riscv64 prnum) (riscv64-NotesLaws prnum counts)
