-- ===== src/Opencore/Maps.antt =====
-- Opencore::ParseMaps (opencore/src/main/cpp/opencore/opencore.cpp), from the lines that `sscanf`
-- has read. The stop at an address of more than 32 bits is compiled for i386 and arm only.
use open_core_sdk.Prelude.{ℕ, List, [], ◌∷◌, ◌++◌, none, some, ltb, if◌then◌else◌}
use open_core_sdk.Elf.{ElfClass, class32, class64}
use open_core_sdk.Kernel.{Kernel, VirtualMemoryArea}

unfoldable pub parse_lines :
    ElfClass → List VirtualMemoryArea → List VirtualMemoryArea → List VirtualMemoryArea
parse_lines c [] maps = maps
parse_lines class64 (vma ∷ lines) maps = parse_lines class64 lines (maps ++ (vma ∷ []))
parse_lines class32 (vma ∷ lines) maps =
    let rest = parse_lines class32 lines (maps ++ (vma ∷ [])) in
    if ltb 0xffff_ffff vma.begin then maps else rest

unfoldable pub parse_maps : Kernel → ElfClass → ℕ → List VirtualMemoryArea → List VirtualMemoryArea
parse_maps k c pid maps = elim (k.proc_maps pid) [
  | none ↦ maps
  | some lines ↦ parse_lines c lines maps
]
