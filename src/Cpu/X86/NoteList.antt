-- ===== src/Cpu/X86/NoteList.antt =====
-- The notes that x86::Opencore writes, as a debugger reads them.
use open_core_sdk.Prelude.{◌≡◌, refl, arith, length}
use open_core_sdk.Elf.NoteList.{encoded}
use open_core_sdk.Kernel.{Kernel}
use open_core_sdk.Stream.Append.{concat}
use open_core_sdk.Lp.{OpencoreImpl, PrStatus}
use open_core_sdk.Lp.Layout.NoteBytes.{ThreadNotes}
use open_core_sdk.Cpu.PrStatusSize.{length-prstatus}
use open_core_sdk.Cpu.NoteList.{prstatus_notes, prstatus_notes_lem, prstatus_notes-IsNote}
use open_core_sdk.Cpu.X86.{thread_writes, encode_prstatus, prstatus_writes, prstatus_size, x86}

pub length-encode_prstatus : (p : PrStatus) → length (encode_prstatus p) ≡ prstatus_size
unfolding encode_prstatus
length-encode_prstatus p = length-prstatus 24 44 4 4 17 p.pr_pid p.pr_reg

pub list_lem :
    (k : Kernel) (s : OpencoreImpl)
    → concat (prstatus_writes k s) ≡ encoded (prstatus_notes prstatus_size encode_prstatus s)
unfolding prstatus_writes thread_writes
list_lem k s = prstatus_notes_lem prstatus_size encode_prstatus length-encode_prstatus s

abbrev pub x86-ThreadNotes : ThreadNotes x86
x86-ThreadNotes = record {
  note_list = λ k s. prstatus_notes prstatus_size encode_prstatus s;
  list_lem = list_lem;
  list_IsNote = λ k s.
      prstatus_notes-IsNote prstatus_size encode_prstatus length-encode_prstatus (omega arith) refl
        s;
}
