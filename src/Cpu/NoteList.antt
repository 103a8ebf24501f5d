-- ===== src/Cpu/NoteList.antt =====
-- WriteCorePrStatus of the processors with one note for each thread, as notes: arm, x86, x86_64.
use open_core_sdk.Prelude.{
  ℕ, ◌%◌, ◌^◌, ◌<◌, ◌≡◌, refl, ap, ◌∙◌, arith, List, [], ◌∷◌, ◌++◌, length, All,
}
use open_core_sdk.Elf.{nt_prstatus}
use open_core_sdk.Elf.Encode.{encode_nhdr}
use open_core_sdk.Elf.NoteList.{Note, IsNote, encode_note, encoded}
use open_core_sdk.Stream.Append.{concat}
use open_core_sdk.Lp.{OpencoreImpl, PrStatus}
use open_core_sdk.Lp.Write.{core_nhdr, core_magic, signal_info_writes}
use open_core_sdk.Lp.Layout.NoteList.{
  core_note, core_note_lem, core_note-IsNote, siginfo_note, siginfo_note_lem, siginfo_note-IsNote,
  each_note, each_note_lem, each_note-IsNote,
}
use open_core_sdk.Cpu.{each_thread}

module _ (size : ℕ) (encode : PrStatus → List ℕ) where
  -- The notes of a thread, `siginfo` behind the first.
  abbrev pub notes_of : List Note → PrStatus → List Note
  notes_of siginfo p = core_note nt_prstatus (encode p) ∷ siginfo

  abbrev pub calls_of : List (List ℕ) → PrStatus → List (List ℕ)
  calls_of siginfo p = encode_nhdr (core_nhdr size nt_prstatus) ∷ core_magic ∷ encode p ∷ siginfo

  abbrev pub prstatus_notes : OpencoreImpl → List Note
  prstatus_notes s = each_note (notes_of (siginfo_note s ∷ [])) (notes_of []) s.prstatus

  module _ (sized : (p : PrStatus) → length (encode p) ≡ size) where
    notes_of_lem :
        (calls : List (List ℕ)) (siginfo : List Note) (p : PrStatus)
        → concat calls ≡ encoded siginfo
        → concat (calls_of calls p) ≡ encoded (notes_of siginfo p)
    notes_of_lem calls siginfo p e =
        core_note_lem size nt_prstatus (encode p) (concat calls) (sized p)
        ∙ ap (λ t. encode_note (core_note nt_prstatus (encode p)) ++ t) e

    pub prstatus_notes_lem :
        (s : OpencoreImpl)
        → concat (each_thread (calls_of (signal_info_writes s)) (calls_of []) s.prstatus)
          ≡ encoded (prstatus_notes s)
    prstatus_notes_lem s =
        each_note_lem (calls_of (signal_info_writes s)) (calls_of [])
          (notes_of (siginfo_note s ∷ [])) (notes_of [])
          (λ p. notes_of_lem (signal_info_writes s) (siginfo_note s ∷ []) p (siginfo_note_lem s))
          (λ p. notes_of_lem [] [] p refl) s.prstatus

    pub prstatus_notes-IsNote :
        size < 2 ^ 32 → size % 4 ≡ 0 → (s : OpencoreImpl) → All IsNote (prstatus_notes s)
    prstatus_notes-IsNote small whole s =
        each_note-IsNote (notes_of (siginfo_note s ∷ [])) (notes_of [])
          (λ p. (note p, (siginfo_note-IsNote s, tt))) (λ p. (note p, tt)) s.prstatus
      where
        note : (p : PrStatus) → IsNote (core_note nt_prstatus (encode p))
        note p = core_note-IsNote size nt_prstatus (encode p) (sized p) (omega arith) small whole
