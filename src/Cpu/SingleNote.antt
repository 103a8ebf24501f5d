-- ===== src/Cpu/SingleNote.antt =====
-- WriteCorePrStatus of the processors with one note for each thread (arm, x86, x86_64, riscv64): how
-- many bytes it writes.
use open_core_sdk.Prelude.{ℕ, ◌+◌, ◌≡◌, arith, List, [], ◌∷◌, length, length-append}
use open_core_sdk.Elf.{nt_prstatus}
use open_core_sdk.Stream.Append.{concat}
use open_core_sdk.Lp.{OpencoreImpl, PrStatus}
use open_core_sdk.Lp.Write.{signal_info_writes}
use open_core_sdk.Lp.Layout.Notes.{length-note}
use open_core_sdk.Cpu.{each_thread}
use open_core_sdk.Cpu.NoteList.{calls_of}
use open_core_sdk.Cpu.Sizes.{length-signal_info_writes, thread_notes, length-each_thread}

module _ (size : ℕ) (encode : PrStatus → List ℕ)
    (sized : (p : PrStatus) → length (encode p) ≡ size) where
  length-calls_of :
      (siginfo : List (List ℕ)) (p : PrStatus)
      → length (concat (calls_of size encode siginfo p)) ≡ length (concat siginfo) + (size + 20)
  length-calls_of siginfo p = omega (
    arith,
    length-note size nt_prstatus (encode p ∷ siginfo),
    length-append (encode p) (concat siginfo),
    sized p,
  )

  pub length-prstatus_writes :
      (s : OpencoreImpl) (ps : List PrStatus)
      → length (
          concat (
            each_thread (calls_of size encode (signal_info_writes s)) (calls_of size encode []) ps))
        ≡ thread_notes 148 (size + 20) (length ps)
  length-prstatus_writes s ps =
      length-each_thread (calls_of size encode (signal_info_writes s)) (calls_of size encode []) 148
        (size + 20)
        (λ p. omega (arith, length-calls_of (signal_info_writes s) p, length-signal_info_writes s))
        (λ p. omega (arith, length-calls_of [] p)) ps
