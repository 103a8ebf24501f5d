-- ===== src/Cpu/Riscv64/NoteList.antt =====
-- The notes that riscv64::Opencore writes, as a debugger reads them, if the `prnum` of
-- WriteCorePrStatus is the number of entries of the table.
use open_core_sdk.Prelude.{ℕ, ◌≡◌, refl, ap, ◌∙◌, arith, length, take, take-length, []}
use open_core_sdk.Elf.NoteList.{encoded}
use open_core_sdk.Kernel.{Kernel}
use open_core_sdk.Stream.Append.{concat}
use open_core_sdk.Lp.{OpencoreImpl}
use open_core_sdk.Lp.Write.{signal_info_writes}
use open_core_sdk.Lp.Layout.NoteBytes.{ThreadNotes}
use open_core_sdk.Cpu.{each_thread}
use open_core_sdk.Cpu.NoteList.{prstatus_notes, prstatus_notes_lem, prstatus_notes-IsNote}
use open_core_sdk.Cpu.Riscv64.{
  thread_writes, encode_prstatus, prstatus_writes, prstatus_size, riscv64,
}
use open_core_sdk.Cpu.Riscv64.Notes.{length-encode_prstatus}

module _ (prnum : OpencoreImpl → ℕ)
    (counts : (s : OpencoreImpl) → prnum s ≡ length s.prstatus) where
  pub list_lem :
      (k : Kernel) (s : OpencoreImpl)
      → concat (prstatus_writes prnum k s)
        ≡ encoded (prstatus_notes prstatus_size encode_prstatus s)
  unfolding prstatus_writes thread_writes
  list_lem k s =
      ap (λ ps. concat (each_thread (thread_writes (signal_info_writes s)) (thread_writes []) ps))
        (ap (λ n. take n s.prstatus) (counts s) ∙ take-length s.prstatus)
      ∙ prstatus_notes_lem prstatus_size encode_prstatus length-encode_prstatus s

  abbrev pub riscv64-ThreadNotes : ThreadNotes (riscv64 prnum)
  riscv64-ThreadNotes = record {
    note_list = λ k s. prstatus_notes prstatus_size encode_prstatus s;
    list_lem = list_lem;
    list_IsNote = λ k s.
        prstatus_notes-IsNote prstatus_size encode_prstatus length-encode_prstatus (omega arith)
          refl s;
  }
