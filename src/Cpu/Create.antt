-- ===== src/Cpu/Create.antt =====
-- CreateCorePrStatus changes `prstatus` and `extra_note_filesz` alone.
use open_core_sdk.Prelude.{
  ℕ, ◌≡◌, ◌≢◌, refl, sym, ap, ◌∙◌, arith, List, [], ◌∷◌, Option, none, some, length, length-set,
  length-replicate, replicate,
}
use open_core_sdk.Kernel.{Kernel}
use open_core_sdk.Opencore.{Context, ThreadRecord}
use open_core_sdk.Lp.{OpencoreImpl, PrStatus}
use open_core_sdk.Cpu.{zero_prstatus, fill_top, fill_other, fill_prstatus, create_for}

module _ (of_context : List ℕ → List ℕ) (k : Kernel) where
  length-fill_top :
      (context : Option Context) (tid : ℕ) (prs : List PrStatus)
      → length (fill_top of_context k context tid prs) ≡ length prs
  unfolding fill_top
  length-fill_top none tid prs = length-set prs 0 _
  length-fill_top (some context) tid prs = length-set prs 0 _

  length-fill_other :
      (cur tid : ℕ) (prs : List PrStatus) → length (fill_other k cur tid prs) ≡ length prs
  unfolding fill_other
  length-fill_other cur tid prs = length-set prs _ _

  length-fill_prstatus :
      (context : Option Context) (top : ℕ) (ts : List ThreadRecord) (cur : ℕ) (prs : List PrStatus)
      → length (fill_prstatus of_context k context top ts cur prs) ≡ length prs
  unfolding fill_prstatus
  length-fill_prstatus context top [] cur prs = refl
  length-fill_prstatus context top (t ∷ ts) cur prs =
      length-fill_prstatus context top ts _ _
      ∙ ground (arith, length-fill_top context t.pid prs, length-fill_other cur t.pid prs)

  module _ (add_notes : ℕ → ℕ → ℕ) where
    pub create_frame :
        (ts : List ThreadRecord) (s : OpencoreImpl)
        → let s' = create_for of_context add_notes k ts s in
          s' ≡ record s {
            base = record (s.base) { extra_note_filesz = s'.extra_note_filesz };
            prstatus = s'.prstatus;
          }
    unfolding create_for
    create_frame [] s = refl
    create_frame (t ∷ ts) s = refl

    pub length-create :
        (ts : List ThreadRecord) (s : OpencoreImpl)
        → s.prstatus ≡ []
        → length (create_for of_context add_notes k ts s).prstatus ≡ length ts
    unfolding create_for
    length-create [] s e = ap length e
    length-create (t ∷ ts) s e =
        length-fill_prstatus s.ucontext_raw s.tid (t ∷ ts) 1
          (replicate (length (t ∷ ts)) zero_prstatus)
        ∙ length-replicate (length (t ∷ ts)) zero_prstatus

    pub extra-create :
        (notes : ℕ → ℕ) (ts : List ThreadRecord) (s : OpencoreImpl)
        → s.extra_note_filesz ≡ 0
        → notes 0 ≡ 0
        → ((n : ℕ) → n ≡ length ts → n ≢ 0 → add_notes 0 n ≡ notes n)
        → (create_for of_context add_notes k ts s).extra_note_filesz ≡ notes (length ts)
    unfolding create_for
    extra-create notes [] s e z h = e ∙ sym z
    extra-create notes (t ∷ ts) s e z h =
        ap (λ n. add_notes n (length (t ∷ ts))) e ∙ h (length (t ∷ ts)) refl (omega arith)
