-- ===== src/Lp/Layout/NoteList.antt =====
-- What WriteCoreSignalInfo, WriteCoreAUXV, WriteNtFile and the threads' writers write, as notes.
use open_core_sdk.Prelude.{
  ℕ, ◌%◌, ◌^◌, ◌<◌, ◌≡◌, refl, sym, ap, ◌∙◌, arith, List, [], ◌∷◌, ◌++◌, append_assoc, length, All,
}
use open_core_sdk.Elf.{siginfo_size, nt_siginfo}
use open_core_sdk.Elf.Encode.{encode_nhdr}
use open_core_sdk.Elf.NoteList.{
  Note, IsNote, encode_note, bytes_lem, encoded, encoded-append, IsNote-append,
}
use open_core_sdk.Stream.Append.{concat, concat-append}
use open_core_sdk.Lp.{OpencoreImpl, PrStatus}
use open_core_sdk.Lp.Write.{
  core_nhdr, core_magic, linux_nhdr, linux_magic, buffer, siginfo_bytes, signal_info_writes,
}
use open_core_sdk.Lp.Load.Healthy.{length-buffer}
use open_core_sdk.Cpu.{each_thread, other_threads}

abbrev pub core_note : ℕ → List ℕ → Note
core_note type desc = record { namesz = 5; type = type; name = core_magic; desc = desc }

abbrev pub linux_note : ℕ → List ℕ → Note
linux_note type desc = record { namesz = 6; type = type; name = linux_magic; desc = desc }

-- The three calls of `fwrite` that make a note.
pub core_note_lem :
    (descsz type : ℕ) (desc rest : List ℕ)
    → length desc ≡ descsz
    → encode_nhdr (core_nhdr descsz type) ++ (core_magic ++ (desc ++ rest))
      ≡ encode_note (core_note type desc) ++ rest
core_note_lem descsz type desc rest e =
    ap (λ n. encode_nhdr (core_nhdr n type) ++ (core_magic ++ (desc ++ rest))) (sym e)
    ∙ sym (bytes_lem (core_note type desc) rest)

pub linux_note_lem :
    (descsz type : ℕ) (desc rest : List ℕ)
    → length desc ≡ descsz
    → encode_nhdr (linux_nhdr descsz type) ++ (linux_magic ++ (desc ++ rest))
      ≡ encode_note (linux_note type desc) ++ rest
linux_note_lem descsz type desc rest e =
    ap (λ n. encode_nhdr (linux_nhdr n type) ++ (linux_magic ++ (desc ++ rest))) (sym e)
    ∙ sym (bytes_lem (linux_note type desc) rest)

pub core_note-IsNote :
    (descsz type : ℕ) (desc : List ℕ)
    → length desc ≡ descsz
    → type < 2 ^ 32
    → descsz < 2 ^ 32
    → descsz % 4 ≡ 0
    → IsNote (core_note type desc)
core_note-IsNote descsz type desc e t small whole = record {
  named = refl;
  namesz_word = omega arith;
  type_word = t;
  desc_word = omega (arith, e, small);
  desc_whole = ap (λ n. n % 4) e ∙ whole;
}

pub linux_note-IsNote :
    (descsz type : ℕ) (desc : List ℕ)
    → length desc ≡ descsz
    → type < 2 ^ 32
    → descsz < 2 ^ 32
    → descsz % 4 ≡ 0
    → IsNote (linux_note type desc)
linux_note-IsNote descsz type desc e t small whole = record {
  named = refl;
  namesz_word = omega arith;
  type_word = t;
  desc_word = omega (arith, e, small);
  desc_whole = ap (λ n. n % 4) e ∙ whole;
}

-- A note whose contents are written in several calls, with `tail` from the call behind them.
pub core_run_lem :
    (descsz type : ℕ) (cs : List (List ℕ)) (tail rest : List ℕ)
    → length (concat cs ++ tail) ≡ descsz
    → concat (encode_nhdr (core_nhdr descsz type) ∷ core_magic ∷ cs) ++ (tail ++ rest)
      ≡ encode_note (core_note type (concat cs ++ tail)) ++ rest
core_run_lem descsz type cs tail rest e =
    append_assoc (encode_nhdr (core_nhdr descsz type)) (core_magic ++ concat cs) (tail ++ rest)
    ∙ ap (λ t. encode_nhdr (core_nhdr descsz type) ++ t)
        (append_assoc core_magic (concat cs) (tail ++ rest)
          ∙ ap (λ t. core_magic ++ t) (sym (append_assoc (concat cs) tail rest)))
    ∙ core_note_lem descsz type (concat cs ++ tail) rest e

-- NT_SIGINFO.
abbrev pub siginfo_note : OpencoreImpl → Note
siginfo_note s = core_note nt_siginfo (buffer siginfo_size (siginfo_bytes s.siginfo))

pub siginfo_note_lem :
    (s : OpencoreImpl) → concat (signal_info_writes s) ≡ encoded (siginfo_note s ∷ [])
unfolding signal_info_writes
siginfo_note_lem s =
    core_note_lem siginfo_size nt_siginfo (buffer siginfo_size (siginfo_bytes s.siginfo)) []
      (length-buffer siginfo_size (siginfo_bytes s.siginfo))

pub siginfo_note-IsNote : (s : OpencoreImpl) → IsNote (siginfo_note s)
siginfo_note-IsNote s =
    core_note-IsNote siginfo_size nt_siginfo (buffer siginfo_size (siginfo_bytes s.siginfo))
      (length-buffer siginfo_size (siginfo_bytes s.siginfo)) (omega arith) (omega arith) refl

-- The notes of the first thread and those of the others.
abbrev pub other_notes : (PrStatus → List Note) → List PrStatus → List Note
other_notes rest [] = []
other_notes rest (p ∷ ps) = rest p ++ other_notes rest ps

abbrev pub each_note : (PrStatus → List Note) → (PrStatus → List Note) → List PrStatus → List Note
each_note first rest [] = []
each_note first rest (p ∷ ps) = first p ++ other_notes rest ps

module _ (first rest : PrStatus → List (List ℕ)) (first_notes rest_notes : PrStatus → List Note)
    (first_lem : (p : PrStatus) → concat (first p) ≡ encoded (first_notes p))
    (rest_lem : (p : PrStatus) → concat (rest p) ≡ encoded (rest_notes p)) where
  other_notes_lem :
      (ps : List PrStatus) → concat (other_threads rest ps) ≡ encoded (other_notes rest_notes ps)
  unfolding other_threads
  other_notes_lem [] = refl
  other_notes_lem (p ∷ ps) =
      concat-append (rest p) (other_threads rest ps)
      ∙ rw (rest_lem p, other_notes_lem ps)
          (sym (encoded-append (rest_notes p) (other_notes rest_notes ps)))

  pub each_note_lem :
      (ps : List PrStatus)
      → concat (each_thread first rest ps) ≡ encoded (each_note first_notes rest_notes ps)
  unfolding each_thread
  each_note_lem [] = refl
  each_note_lem (p ∷ ps) =
      concat-append (first p) (other_threads rest ps)
      ∙ rw (first_lem p, other_notes_lem ps)
          (sym (encoded-append (first_notes p) (other_notes rest_notes ps)))

pub each_note-IsNote :
    (first rest : PrStatus → List Note)
    → ((p : PrStatus) → All IsNote (first p))
    → ((p : PrStatus) → All IsNote (rest p))
    → (ps : List PrStatus) → All IsNote (each_note first rest ps)
each_note-IsNote first rest vf vr [] = tt
each_note-IsNote first rest vf vr (p ∷ ps) =
    IsNote-append (first p) (other_notes rest ps) (vf p) (others ps)
  where
    others : (ps : List PrStatus) → All IsNote (other_notes rest ps)
    others [] = tt
    others (q ∷ qs) = IsNote-append (rest q) (other_notes rest qs) (vr q) (others qs)
