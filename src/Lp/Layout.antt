-- ===== src/Lp/Layout.antt =====
-- The layout that WriteCoreNoteHeader and WriteCoreProgramHeaders announce, and the bytes that are
-- written (opencore/src/main/cpp/opencore/lp64/opencore.cpp and lp32/opencore.cpp).
pub mod Sizes
pub mod Notes
pub mod File
pub mod Front
pub mod Core
pub mod Spoiled
pub mod Parsed
pub mod Ready
pub mod Dumped
pub mod Table
pub mod NoteList
pub mod NoteBytes
pub mod NotesRead
pub mod Peek
pub mod Contents
pub mod Overflow
use open_core_sdk.Prelude.{ℕ, ◌+◌, ◌*◌, ◌/◌, ◌^◌, ◌≤◌, ◌<◌, List, [], ◌∷◌, length}
use open_core_sdk.Elf.{ElfClass, word_size, ehdr_size, phdr_size, auxv_size, file_size}
use open_core_sdk.Kernel.{VirtualMemoryArea}

-- Rounded up to whole words of four bytes.
abbrev pub words : ℕ → ℕ
words n = (n + 3) / 4 * 4

-- Rounded up to whole pages.
abbrev pub pages : ℕ → ℕ
pages n = (n + 4095) / 4096 * 4096

-- Header, name, and what follows, of the notes NT_AUXV and NT_FILE.
abbrev pub auxv_part : ElfClass → ℕ → ℕ
auxv_part c auxvnum = 20 + auxv_size c * auxvnum

abbrev pub file_part : ElfClass → ℕ → ℕ → ℕ
file_part c phnum names = 20 + 2 * word_size c + file_size c * phnum + names

-- The note segment: the notes of the threads take `extra` bytes.
abbrev pub note_size : ElfClass → ℕ → ℕ → ℕ → ℕ → ℕ
note_size c auxvnum extra phnum fileslen =
    extra + auxv_part c auxvnum + file_part c phnum (words fileslen)

-- The ELF header and the program headers, the note's among them.
abbrev pub headers_size : ElfClass → ℕ → ℕ
headers_size c phnum = ehdr_size c + (phnum + 1) * phdr_size c

-- The names of the mappings, each with the zero behind it.
abbrev pub names_size : List VirtualMemoryArea → ℕ
names_size [] = 0
names_size (vma ∷ maps) = length vma.file + 1 + names_size maps
