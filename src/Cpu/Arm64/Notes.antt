-- ===== src/Cpu/Arm64/Notes.antt =====
-- The notes of arm64::Opencore: what WriteCorePrStatus writes is as long as CreateCorePrStatus says.
use open_core_sdk.Prelude.{
  ◌≢◌, take, ℕ, zero, suc, ◌+◌, ◌-◌, ◌%◌, ◌^◌, ◌<◌, ◌≡◌, refl, arith, List, [], ◌∷◌, ◌++◌, Option,
  none, some, length, length-append, replicate, length-replicate,
}
use open_core_sdk.Elf.{
  nt_prstatus, nt_fpregset, nt_arm_tls, nt_arm_pac_mask, nt_arm_pac_enabled_keys,
  nt_arm_tagged_addr_ctrl,
}
use open_core_sdk.Kernel.{Kernel}
use open_core_sdk.Stream.Append.{concat, length-concat-append}
use open_core_sdk.Lp.{OpencoreImpl, PrStatus}
use open_core_sdk.Lp.Write.{buffer, signal_info_writes, linux_nhdr, linux_magic}
use open_core_sdk.Lp.Load.Healthy.{length-buffer}
use open_core_sdk.Lp.Layout.Notes.{length-note}
use open_core_sdk.Lp.Layout.File.{NotesLaws}
use open_core_sdk.Cpu.Create.{create_frame, length-create, extra-create}
use open_core_sdk.Cpu.Sizes.{length-signal_info_writes, thread_notes, length-each_thread}
use open_core_sdk.Cpu.PrStatusSize.{length-prstatus}
use open_core_sdk.Elf.Encode.{le, length-le, encode_nhdr}
use open_core_sdk.Cpu.{over_stack}
use open_core_sdk.Cpu.Sizes.{length-linux_note, length-over_stack}
use open_core_sdk.Cpu.Arm64.{
  thread_writes, encode_prstatus, prstatus_writes, prstatus_size, filled, fp_regs_writes,
  tls_writes, pac_writes, mte_writes, def_pac_mask, add_notes, create_core_prstatus, pt_regs_words,
  arm64,
}

pub length-filled :
    (o : Option (List ℕ)) (failed : List ℕ) (read : List ℕ → List ℕ) (n : ℕ)
    → length failed ≡ n
    → ((bs : List ℕ) → length (read bs) ≡ n)
    → length (filled o failed read) ≡ n
length-filled none failed read n f h = f
length-filled (some bs) failed read n f h = h bs

-- A last call of `fwrite`.
length-last : (bs : List ℕ) (n : ℕ) → length bs ≡ n → length (bs ++ []) ≡ n
length-last bs n e = omega (arith, length-append bs [])

fp_regs_size : (k : Kernel) (tid : ℕ) → length (concat (fp_regs_writes k tid)) ≡ 548
unfolding fp_regs_writes
fp_regs_size k tid = omega (
  arith,
  length-note 528 nt_fpregset (bytes ∷ []),
  length-last bytes 528 (
      length-filled (k.get_regset tid nt_fpregset) (replicate 528 0) (buffer 528) 528
        (length-replicate {A = ℕ} 528 0) (length-buffer 528)),
)
  where
    bytes : List ℕ
    bytes = filled (k.get_regset tid nt_fpregset) (replicate 528 0) (buffer 528)

tls_size_lem : (k : Kernel) (tid : ℕ) → length (concat (tls_writes k tid)) ≡ 36
unfolding tls_writes
tls_size_lem k tid = omega (
  arith,
  length-linux_note 16 nt_arm_tls (bytes ∷ []),
  length-last bytes 16 (
      length-filled (k.get_regset tid nt_arm_tls) (replicate 16 0) (over_stack 16 k.stack) 16 refl
        (length-over_stack 16 k.stack)),
)
  where
    bytes : List ℕ
    bytes = filled (k.get_regset tid nt_arm_tls) (replicate 16 0) (over_stack 16 k.stack)

-- A note whose value is one word, all ones if the kernel has none.
pub word_size_lem :
    (k : Kernel) (tid type : ℕ)
    → length (filled (k.get_regset tid type) (le 8 (2 ^ 64 - 1)) (over_stack 8 k.stack)) ≡ 8
word_size_lem k tid type =
    length-filled (k.get_regset tid type) (le 8 (2 ^ 64 - 1)) (over_stack 8 k.stack) 8
      (length-le 8 (2 ^ 64 - 1)) (length-over_stack 8 k.stack)

pac_size : (k : Kernel) (tid : ℕ) → length (concat (pac_writes k tid)) ≡ 64
unfolding pac_writes
pac_size k tid = omega (
  arith,
  length-linux_note 16 nt_arm_pac_mask (masks ∷ keys),
  length-append masks (concat keys),
  length-filled (k.get_regset tid nt_arm_pac_mask) def_pac_mask (over_stack 16 k.stack) 16
      (unfold le in refl) (length-over_stack 16 k.stack),
  length-linux_note 8 nt_arm_pac_enabled_keys (word ∷ []),
  length-last word 8 (word_size_lem k tid nt_arm_pac_enabled_keys),
)
  where
    masks : List ℕ
    masks = filled (k.get_regset tid nt_arm_pac_mask) def_pac_mask (over_stack 16 k.stack)

    word : List ℕ
    word =
        filled (k.get_regset tid nt_arm_pac_enabled_keys) (le 8 (2 ^ 64 - 1)) (over_stack 8 k.stack)

    keys : List (List ℕ)
    keys = encode_nhdr (linux_nhdr 8 nt_arm_pac_enabled_keys) ∷ linux_magic ∷ word ∷ []

mte_size : (k : Kernel) (tid : ℕ) → length (concat (mte_writes k tid)) ≡ 28
unfolding mte_writes
mte_size k tid = omega (
  arith,
  length-linux_note 8 nt_arm_tagged_addr_ctrl (word ∷ []),
  length-last word 8 (word_size_lem k tid nt_arm_tagged_addr_ctrl),
)
  where
    word : List ℕ
    word =
        filled (k.get_regset tid nt_arm_tagged_addr_ctrl) (le 8 (2 ^ 64 - 1)) (over_stack 8 k.stack)

thread_size :
    (k : Kernel) (siginfo : List (List ℕ)) (p : PrStatus)
    → length (concat (thread_writes k siginfo p)) ≡ length (concat siginfo) + 1088
unfolding thread_writes encode_prstatus
thread_size k siginfo p = omega (
  arith,
  length-note prstatus_size nt_prstatus
      (encode_prstatus p ∷ (siginfo ++ (fp ++ (tls ++ (pac ++ mte))))),
  length-append (encode_prstatus p) (concat (siginfo ++ (fp ++ (tls ++ (pac ++ mte))))),
  length-prstatus 32 76 8 8 34 p.pr_pid p.pr_reg,
  length-concat-append siginfo (fp ++ (tls ++ (pac ++ mte))),
  length-concat-append fp (tls ++ (pac ++ mte)),
  length-concat-append tls (pac ++ mte),
  length-concat-append pac mte,
  fp_regs_size k p.pr_pid,
  tls_size_lem k p.pr_pid,
  pac_size k p.pr_pid,
  mte_size k p.pr_pid,
)
  where
    fp : List (List ℕ)
    fp = fp_regs_writes k p.pr_pid

    tls : List (List ℕ)
    tls = tls_writes k p.pr_pid

    pac : List (List ℕ)
    pac = pac_writes k p.pr_pid

    mte : List (List ℕ)
    mte = mte_writes k p.pr_pid

pub words : (n : ℕ) → thread_notes 148 1088 n % 4 ≡ 0
words zero = refl
words (suc n) = omega arith

pub writes_size :
    (k : Kernel) (s : OpencoreImpl)
    → length (concat (prstatus_writes k s)) ≡ thread_notes 148 1088 (length s.prstatus)
unfolding prstatus_writes
writes_size k s =
    length-each_thread (thread_writes k (signal_info_writes s)) (thread_writes k []) 148 1088
      (λ p. omega (arith, thread_size k (signal_info_writes s) p, length-signal_info_writes s))
      (λ p. thread_size k [] p) s.prstatus

adds : (n : ℕ) → thread_notes 148 1088 n < 2 ^ 31 → n ≢ 0 → add_notes 0 n ≡ thread_notes 148 1088 n
unfolding add_notes
adds zero h z = absurd (z refl)
adds (suc n) h z = omega arith

pub length-created :
    (k : Kernel) (s : OpencoreImpl)
    → s.prstatus ≡ []
    → length (create_core_prstatus k s).prstatus ≡ length s.threads
unfolding create_core_prstatus
length-created k s e = length-create (take pt_regs_words) k add_notes s.threads s e

pub extra-created :
    (k : Kernel) (s : OpencoreImpl)
    → s.extra_note_filesz ≡ 0
    → thread_notes 148 1088 (length s.threads) < 2 ^ 31
    → (create_core_prstatus k s).extra_note_filesz ≡ thread_notes 148 1088 (length s.threads)
unfolding create_core_prstatus
extra-created k s e h =
    extra-create (take pt_regs_words) k add_notes (thread_notes 148 1088) s.threads s e refl
      (λ n i z. adds n (rw i h) z)

pub frame :
    (k : Kernel) (s : OpencoreImpl)
    → let s' = create_core_prstatus k s in
      s' ≡ record s {
        base = record (s.base) { extra_note_filesz = s'.extra_note_filesz };
        prstatus = s'.prstatus;
      }
unfolding create_core_prstatus
frame k s = create_frame (take pt_regs_words) k add_notes s.threads s

abbrev pub arm64-NotesLaws : NotesLaws arm64
arm64-NotesLaws = record {
  notes = thread_notes 148 1088;
  notes_words = words;
  writes_size = writes_size;
  create_frame = frame;
  length-create = length-created;
  extra-create = extra-created;
}
