-- ===== src/Cpu/Arm64/NoteList.antt =====
-- The notes that arm64::Opencore writes, as a debugger reads them.
use open_core_sdk.Prelude.{
  ℕ, ◌-◌, sym, ◌^◌, ◌≡◌, refl, ap, ◌∙◌, arith, List, [], ◌∷◌, ◌++◌, length, replicate,
  length-replicate, All,
}
use open_core_sdk.Elf.{
  nt_prstatus, nt_fpregset, nt_arm_tls, nt_arm_pac_mask, nt_arm_pac_enabled_keys,
  nt_arm_tagged_addr_ctrl,
}
use open_core_sdk.Elf.Encode.{le}
use open_core_sdk.Elf.NoteList.{Note, IsNote, encode_note, encoded, encoded-append, IsNote-append}
use open_core_sdk.Kernel.{Kernel}
use open_core_sdk.Stream.Append.{concat, concat-append}
use open_core_sdk.Lp.{OpencoreImpl, PrStatus}
use open_core_sdk.Lp.Write.{buffer, signal_info_writes}
use open_core_sdk.Lp.Load.Healthy.{length-buffer}
use open_core_sdk.Lp.Layout.NoteList.{
  core_note, core_note_lem, core_note-IsNote, linux_note, linux_note_lem, linux_note-IsNote,
  siginfo_note, siginfo_note_lem, siginfo_note-IsNote, each_note, each_note_lem, each_note-IsNote,
}
use open_core_sdk.Lp.Layout.NoteBytes.{ThreadNotes}
use open_core_sdk.Cpu.{over_stack}
use open_core_sdk.Cpu.Sizes.{length-over_stack}
use open_core_sdk.Cpu.PrStatusSize.{length-prstatus}
use open_core_sdk.Cpu.Arm64.Notes.{length-filled, word_size_lem}
use open_core_sdk.Cpu.Arm64.{
  thread_writes, encode_prstatus, prstatus_writes, prstatus_size, fpregset_size, tls_size,
  pac_mask_size, filled, fp_regs_writes, tls_writes, pac_writes, mte_writes, def_pac_mask, arm64,
}

length-encode_prstatus : (p : PrStatus) → length (encode_prstatus p) ≡ prstatus_size
unfolding encode_prstatus
length-encode_prstatus p = length-prstatus 32 76 8 8 34 p.pr_pid p.pr_reg

module _ (k : Kernel) (tid : ℕ) where
  -- What the notes of one thread hold: the answer of the kernel, or what stands for it.
  abbrev fp_regs : List ℕ
  fp_regs = filled (k.get_regset tid nt_fpregset) (replicate fpregset_size 0) (buffer fpregset_size)

  abbrev tls : List ℕ
  tls = filled (k.get_regset tid nt_arm_tls) (replicate tls_size 0) (over_stack tls_size k.stack)

  abbrev pac_mask : List ℕ
  pac_mask =
      filled (k.get_regset tid nt_arm_pac_mask) def_pac_mask (over_stack pac_mask_size k.stack)

  abbrev word_of : ℕ → List ℕ
  word_of type = filled (k.get_regset tid type) (le 8 (2 ^ 64 - 1)) (over_stack 8 k.stack)

  -- The notes behind NT_PRSTATUS.
  abbrev extra_notes : List Note
  extra_notes =
      core_note nt_fpregset fp_regs
      ∷ linux_note nt_arm_tls tls
      ∷ linux_note nt_arm_pac_mask pac_mask
      ∷ linux_note nt_arm_pac_enabled_keys (word_of nt_arm_pac_enabled_keys)
      ∷ linux_note nt_arm_tagged_addr_ctrl (word_of nt_arm_tagged_addr_ctrl)
      ∷ []

  fp_regs_size : length fp_regs ≡ fpregset_size
  fp_regs_size =
      length-filled (k.get_regset tid nt_fpregset) (replicate fpregset_size 0)
        (buffer fpregset_size) fpregset_size (length-replicate {A = ℕ} fpregset_size 0)
        (length-buffer fpregset_size)

  tls_size_lem : length tls ≡ tls_size
  tls_size_lem =
      length-filled (k.get_regset tid nt_arm_tls) (replicate tls_size 0)
        (over_stack tls_size k.stack) tls_size refl (length-over_stack tls_size k.stack)

  pac_mask_size_lem : length pac_mask ≡ pac_mask_size
  pac_mask_size_lem =
      length-filled (k.get_regset tid nt_arm_pac_mask) def_pac_mask
        (over_stack pac_mask_size k.stack) pac_mask_size (unfold le in refl)
        (length-over_stack pac_mask_size k.stack)

  extra_notes_lem :
      concat (fp_regs_writes k tid ++ (tls_writes k tid ++ (pac_writes k tid ++ mte_writes k tid)))
      ≡ encoded extra_notes
  unfolding fp_regs_writes tls_writes pac_writes mte_writes
  extra_notes_lem =
      core_note_lem fpregset_size nt_fpregset fp_regs _ fp_regs_size
      ∙ ap (λ t. encode_note (core_note nt_fpregset fp_regs) ++ t)
          (linux_note_lem pac_mask_size nt_arm_tls tls _ tls_size_lem
            ∙ ap (λ t. encode_note (linux_note nt_arm_tls tls) ++ t)
                (linux_note_lem pac_mask_size nt_arm_pac_mask pac_mask _ pac_mask_size_lem
                  ∙ ap (λ t. encode_note (linux_note nt_arm_pac_mask pac_mask) ++ t)
                      (linux_note_lem 8 nt_arm_pac_enabled_keys (word_of nt_arm_pac_enabled_keys) _
                          (word_size_lem k tid nt_arm_pac_enabled_keys)
                        ∙ ap
                            (λ t.
                              encode_note (
                                linux_note nt_arm_pac_enabled_keys
                                  (word_of nt_arm_pac_enabled_keys))
                              ++ t)
                            (linux_note_lem 8 nt_arm_tagged_addr_ctrl
                              (word_of nt_arm_tagged_addr_ctrl) []
                              (word_size_lem k tid nt_arm_tagged_addr_ctrl)))))

  extra_notes-IsNote : All IsNote extra_notes
  extra_notes-IsNote = (
    core_note-IsNote fpregset_size nt_fpregset fp_regs fp_regs_size (omega arith) (omega arith)
        refl,
    (
      linux_note-IsNote tls_size nt_arm_tls tls tls_size_lem (omega arith) (omega arith) refl,
      (
        linux_note-IsNote pac_mask_size nt_arm_pac_mask pac_mask pac_mask_size_lem (omega arith)
            (omega arith) refl,
        (
          linux_note-IsNote 8 nt_arm_pac_enabled_keys _
              (word_size_lem k tid nt_arm_pac_enabled_keys) (omega arith) (omega arith) refl,
          (
            linux_note-IsNote 8 nt_arm_tagged_addr_ctrl _
                (word_size_lem k tid nt_arm_tagged_addr_ctrl) (omega arith) (omega arith) refl,
            tt,
          ),
        ),
      ),
    ),
  )

module _ (k : Kernel) where
  abbrev prstatus_note : PrStatus → Note
  prstatus_note p = core_note nt_prstatus (encode_prstatus p)

  -- The notes of a thread, `siginfo` behind the first.
  abbrev pub notes_of : List Note → PrStatus → List Note
  notes_of siginfo p = prstatus_note p ∷ (siginfo ++ extra_notes k p.pr_pid)

  notes_of_lem :
      (calls : List (List ℕ)) (siginfo : List Note) (p : PrStatus)
      → concat calls ≡ encoded siginfo
      → concat (thread_writes k calls p) ≡ encoded (notes_of siginfo p)
  unfolding thread_writes
  notes_of_lem calls siginfo p e =
      core_note_lem prstatus_size nt_prstatus (encode_prstatus p) _ (length-encode_prstatus p)
      ∙ ap (λ t. encode_note (prstatus_note p) ++ t)
          (concat-append calls _
            ∙ rw (e, extra_notes_lem k p.pr_pid)
                (sym (encoded-append siginfo (extra_notes k p.pr_pid))))

  notes_of-IsNote :
      (siginfo : List Note) (p : PrStatus) → All IsNote siginfo → All IsNote (notes_of siginfo p)
  notes_of-IsNote siginfo p v = (
    core_note-IsNote prstatus_size nt_prstatus (encode_prstatus p) (length-encode_prstatus p)
        (omega arith) (omega arith) refl,
    IsNote-append siginfo (extra_notes k p.pr_pid) v (extra_notes-IsNote k p.pr_pid),
  )

  abbrev pub note_list : OpencoreImpl → List Note
  note_list s = each_note (notes_of (siginfo_note s ∷ [])) (notes_of []) s.prstatus

  pub list_lem : (s : OpencoreImpl) → concat (prstatus_writes k s) ≡ encoded (note_list s)
  unfolding prstatus_writes
  list_lem s =
      each_note_lem (thread_writes k (signal_info_writes s)) (thread_writes k [])
        (notes_of (siginfo_note s ∷ [])) (notes_of [])
        (λ p. notes_of_lem (signal_info_writes s) (siginfo_note s ∷ []) p (siginfo_note_lem s))
        (λ p. notes_of_lem [] [] p refl) s.prstatus

  pub list_IsNote : (s : OpencoreImpl) → All IsNote (note_list s)
  list_IsNote s =
      each_note-IsNote (notes_of (siginfo_note s ∷ [])) (notes_of [])
        (λ p. notes_of-IsNote (siginfo_note s ∷ []) p (siginfo_note-IsNote s, tt))
        (λ p. notes_of-IsNote [] p tt) s.prstatus

abbrev pub arm64-ThreadNotes : ThreadNotes arm64
arm64-ThreadNotes = record { note_list = note_list; list_lem = list_lem; list_IsNote = list_IsNote }
