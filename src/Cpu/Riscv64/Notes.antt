-- ===== src/Cpu/Riscv64/Notes.antt =====
-- The notes of riscv64::Opencore: what WriteCorePrStatus writes is as long as CreateCorePrStatus
-- says, if the `prnum` of the one is the number of entries that the other makes.
use open_core_sdk.Prelude.{
  ◌≢◌, ℕ, zero, suc, ◌%◌, ◌^◌, ◌<◌, ◌≡◌, refl, arith, take, take-length, ap, ◌∙◌, [], length,
}
use open_core_sdk.Kernel.{Kernel}
use open_core_sdk.Stream.Append.{concat}
use open_core_sdk.Lp.{OpencoreImpl, PrStatus}
use open_core_sdk.Lp.Layout.File.{NotesLaws}
use open_core_sdk.Cpu.Create.{create_frame, length-create, extra-create}
use open_core_sdk.Cpu.Sizes.{thread_notes}
use open_core_sdk.Cpu.SingleNote.{length-prstatus_writes}
use open_core_sdk.Cpu.PrStatusSize.{length-prstatus}
use open_core_sdk.Cpu.Riscv64.{
  thread_writes, encode_prstatus, prstatus_writes, prstatus_size, add_notes, of_context,
  create_core_prstatus, riscv64,
}

pub words : (n : ℕ) → thread_notes 148 396 n % 4 ≡ 0
words zero = refl
words (suc n) = omega arith

pub length-encode_prstatus : (p : PrStatus) → length (encode_prstatus p) ≡ prstatus_size
unfolding encode_prstatus
length-encode_prstatus p = length-prstatus 32 76 8 8 32 p.pr_pid p.pr_reg

pub writes_size :
    (prnum : OpencoreImpl → ℕ) (counts : (s : OpencoreImpl) → prnum s ≡ length s.prstatus)
    (k : Kernel) (s : OpencoreImpl)
    → length (concat (prstatus_writes prnum k s)) ≡ thread_notes 148 396 (length s.prstatus)
unfolding prstatus_writes thread_writes
writes_size prnum counts k s =
    length-prstatus_writes prstatus_size encode_prstatus length-encode_prstatus s
      (take (prnum s) s.prstatus)
    ∙ ap (λ ps. thread_notes 148 396 (length ps)) all
  where
    all : take (prnum s) s.prstatus ≡ s.prstatus
    all = ap (λ n. take n s.prstatus) (counts s) ∙ take-length s.prstatus

adds : (n : ℕ) → thread_notes 148 396 n < 2 ^ 31 → n ≢ 0 → add_notes 0 n ≡ thread_notes 148 396 n
unfolding add_notes
adds zero h z = absurd (z refl)
adds (suc n) h z = omega arith

pub length-created :
    (k : Kernel) (s : OpencoreImpl)
    → s.prstatus ≡ []
    → length (create_core_prstatus k s).prstatus ≡ length s.threads
unfolding create_core_prstatus
length-created k s e = length-create of_context k add_notes s.threads s e

pub extra-created :
    (k : Kernel) (s : OpencoreImpl)
    → s.extra_note_filesz ≡ 0
    → thread_notes 148 396 (length s.threads) < 2 ^ 31
    → (create_core_prstatus k s).extra_note_filesz ≡ thread_notes 148 396 (length s.threads)
unfolding create_core_prstatus
extra-created k s e h =
    extra-create of_context k add_notes (thread_notes 148 396) s.threads s e refl
      (λ n i z. adds n (rw i h) z)

pub frame :
    (k : Kernel) (s : OpencoreImpl)
    → let s' = create_core_prstatus k s in
      s' ≡ record s {
        base = record (s.base) { extra_note_filesz = s'.extra_note_filesz };
        prstatus = s'.prstatus;
      }
unfolding create_core_prstatus
frame k s = create_frame of_context k add_notes s.threads s

abbrev pub riscv64-NotesLaws :
    (prnum : OpencoreImpl → ℕ)
    → ((s : OpencoreImpl) → prnum s ≡ length s.prstatus)
    → NotesLaws (riscv64 prnum)
riscv64-NotesLaws prnum counts = record {
  notes = thread_notes 148 396;
  notes_words = words;
  writes_size = writes_size prnum counts;
  create_frame = frame;
  length-create = length-created;
  extra-create = extra-created;
}
