-- ===== src/Cpu/Threads.antt =====
-- CreateCorePrStatus of the processors: the table of threads (opencore/src/main/cpp/opencore/arm64/
-- opencore.cpp and its like).
use open_core_sdk.Prelude.{
  ℕ, zero, suc, ◌+◌, ◌<◌, ◌≡◌, refl, sym, ap, ◌∙◌, inl, inr, arith, false, List, [], ◌∷◌, ◌++◌,
  append_assoc, map, Option, none, some, leb, ◌==◌, ==_iff, if◌then◌else◌, Bool-cases, Option-cases,
  length, length-append, get_or, set, replicate,
}
use open_core_sdk.Kernel.{Kernel}
use open_core_sdk.Opencore.{Context, ThreadRecord}
use open_core_sdk.Lp.{OpencoreImpl, PrStatus}
use open_core_sdk.Cpu.{
  zero_prstatus, read_registers, fill_top, fill_other, fill_prstatus, create_for,
}

-- The threads but the one that is dumped, in the order of the list.
abbrev pub others : ℕ → List ThreadRecord → List ℕ
others top [] = []
others top (t ∷ ts) = if t.pid == top then others top ts else t.pid ∷ others top ts

-- The registers that ptrace gives; where it fails they stay zero.
abbrev pub given : Option (List ℕ) → List ℕ
given none = []
given (some regs) = regs

-- The entry of a thread: its number and the registers that ptrace gives.
abbrev pub snapshot : Kernel → ℕ → PrStatus
snapshot k tid = record { pr_pid = tid; pr_reg = given (k.get_registers tid) }

-- The entry of the dumped thread: its number, and the registers of the signal's context, or those that
-- ptrace gives if there is none.
abbrev pub top_entry : (List ℕ → List ℕ) → Kernel → Option Context → ℕ → PrStatus
top_entry of_context k none top = snapshot k top
top_entry of_context k (some context) top = record {
  pr_pid = top;
  pr_reg = of_context context.registers;
}

get_or-middle : (xs ys : List PrStatus) (y d : PrStatus) → get_or (xs ++ (y ∷ ys)) (length xs) d ≡ y
get_or-middle [] ys y d = refl
get_or-middle (x ∷ xs) ys y d = get_or-middle xs ys y d

set-middle :
    (xs ys : List PrStatus) (y v : PrStatus) → set (xs ++ (y ∷ ys)) (length xs) v ≡ xs ++ (v ∷ ys)
set-middle [] ys y v = refl
set-middle (x ∷ xs) ys y v = ap (λ t. x ∷ t) (set-middle xs ys y v)

read_registers-none :
    (k : Kernel) (tid : ℕ) (p : PrStatus) → k.get_registers tid ≡ none → read_registers k tid p ≡ p
unfolding read_registers
read_registers-none k tid p e = rw (e, read_registers) refl

read_registers-some :
    (k : Kernel) (tid : ℕ) (p : PrStatus) (regs : List ℕ)
    → k.get_registers tid ≡ some regs
    → read_registers k tid p ≡ record p { pr_reg = regs }
unfolding read_registers
read_registers-some k tid p regs e = rw (e, read_registers) refl

read_registers-snapshot :
    (k : Kernel) (tid : ℕ)
    → read_registers k tid (record { pr_pid = tid; pr_reg = [] }) ≡ snapshot k tid
read_registers-snapshot k tid = elim (Option-cases (k.get_registers tid)) [
  | inl failed ↦
      read_registers-none k tid (record { pr_pid = tid; pr_reg = [] }) failed
      ∙ ap (λ o. record { pr_pid = tid; pr_reg = given o }) (sym failed)
  | inr (regs, read) ↦
      read_registers-some k tid (record { pr_pid = tid; pr_reg = [] }) regs read
      ∙ ap (λ o. record { pr_pid = tid; pr_reg = given o }) (sym read)
]

read_registers_again :
    (k : Kernel) (tid : ℕ) (p : PrStatus)
    → p.pr_pid ≡ tid
    → read_registers k tid (record (read_registers k tid p) { pr_pid = tid })
      ≡ read_registers k tid p
read_registers_again k tid p e = elim (Option-cases (k.get_registers tid)) [
  | inl failed ↦
      ap (λ (q : PrStatus). read_registers k tid (record q { pr_pid = tid }))
        (read_registers-none k tid p failed)
      ∙ ap (λ n. read_registers k tid (record p { pr_pid = n })) (sym e)
  | inr (regs, read) ↦
      read_registers-some k tid (record (read_registers k tid p) { pr_pid = tid }) regs read
      ∙ ap (λ n. record p { pr_pid = n; pr_reg = regs }) (sym e)
      ∙ sym (read_registers-some k tid p regs read)
]

module _ (of_context : List ℕ → List ℕ) (k : Kernel) (context : Option Context) (top : ℕ) where
  fill_head : PrStatus → PrStatus
  fill_head h = get_or (fill_top of_context k context top (h ∷ [])) 0 zero_prstatus

  fill_top_lem :
      (h : PrStatus) (prs : List PrStatus)
      → fill_top of_context k context top (h ∷ prs) ≡ fill_head h ∷ prs
  unfolding fill_top fill_head
  fill_top_lem h prs = by_context context
    where
      by_context :
          (o : Option Context)
          → fill_top of_context k o top (h ∷ prs)
            ≡ get_or (fill_top of_context k o top (h ∷ [])) 0 zero_prstatus ∷ prs
      by_context none = refl
      by_context (some x) = refl

  fill_other_lem :
      (tid : ℕ) (h : PrStatus) (xs ys : List PrStatus)
      → fill_other k (suc (length xs)) tid (h ∷ (xs ++ (zero_prstatus ∷ ys)))
        ≡ h ∷ (xs ++ (snapshot k tid ∷ ys))
  unfolding fill_other
  fill_other_lem tid h xs ys = rw room (
      ap
        (λ p.
          h
          ∷ set (xs ++ (zero_prstatus ∷ ys)) (length xs)
              (read_registers k tid (record p { pr_pid = tid })))
        (get_or-middle xs ys zero_prstatus zero_prstatus)
      ∙ ap (λ prs. h ∷ prs)
          (set-middle xs ys zero_prstatus
            (read_registers k tid (record { pr_pid = tid; pr_reg = [] })))
      ∙ ap (λ p. h ∷ (xs ++ (p ∷ ys))) (read_registers-snapshot k tid))
    where
      size : length (xs ++ (zero_prstatus ∷ ys)) ≡ length xs + suc (length ys)
      size = length-append xs (zero_prstatus ∷ ys)

      room : leb (suc (length (xs ++ (zero_prstatus ∷ ys)))) (suc (length xs)) ≡ false
      room = ground (arith, size)

  head_after : PrStatus → List ThreadRecord → PrStatus
  head_after h [] = h
  head_after h (t ∷ ts) = head_after (if t.pid == top then fill_head h else h) ts

  fill_prstatus_lem :
      (ts : List ThreadRecord) (h : PrStatus) (xs : List PrStatus) (m : ℕ)
      → length (others top ts) ≡ m
      → fill_prstatus of_context k context top ts
          (suc (length xs))
          (h ∷ (xs ++ replicate m zero_prstatus))
        ≡ head_after h ts ∷ (xs ++ map (snapshot k) (others top ts))
  unfolding fill_prstatus head_after
  fill_prstatus_lem [] h xs m e = ap (λ n. h ∷ (xs ++ replicate n zero_prstatus)) (sym e)
  fill_prstatus_lem (t ∷ ts) h xs m e = elim (Bool-cases (t.pid == top)) [
    | inl hit ↦ rw hit (
        ap
          (λ p.
            fill_prstatus of_context k context top ts (suc (length xs))
              (fill_top of_context k context p (h ∷ (xs ++ replicate m zero_prstatus))))
          ((==_iff t.pid top).0 hit)
        ∙ ap (fill_prstatus of_context k context top ts (suc (length xs)))
            (fill_top_lem h (xs ++ replicate m zero_prstatus))
        ∙ fill_prstatus_lem ts (fill_head h) xs m
            (ap (λ b. length (if b then others top ts else t.pid ∷ others top ts)) (sym hit) ∙ e))
    | inr miss ↦ rw miss (
        next (λ ys m' e'. fill_prstatus_lem ts h ys m' e') m
          (ap (λ b. length (if b then others top ts else t.pid ∷ others top ts)) (sym miss) ∙ e))
  ]
    where
      next :
          ((ys : List PrStatus) (m' : ℕ)
            → length (others top ts) ≡ m'
            → fill_prstatus of_context k context top ts
                (suc (length ys))
                (h ∷ (ys ++ replicate m' zero_prstatus))
              ≡ head_after h ts ∷ (ys ++ map (snapshot k) (others top ts)))
          → (m : ℕ) → suc (length (others top ts)) ≡ m
          → fill_prstatus of_context k context top ts
              (suc (length xs) + 1)
              (fill_other k (suc (length xs)) t.pid (h ∷ (xs ++ replicate m zero_prstatus)))
            ≡ head_after h ts ∷ (xs ++ (snapshot k t.pid ∷ map (snapshot k) (others top ts)))
      next others_lem zero e' = absurd (omega arith)
      next others_lem (suc m') e' =
          let snap = snapshot k t.pid in
          let one_more : suc (length xs) + 1 ≡ suc (length (xs ++ (snap ∷ []))) =
            omega (arith, length-append xs (snap ∷ [])) in
          ap (fill_prstatus of_context k context top ts (suc (length xs) + 1)) (
            fill_other_lem t.pid h xs (replicate m' zero_prstatus)
            ∙ ap (λ l. h ∷ l) (sym (append_assoc xs (snap ∷ []) (replicate m' zero_prstatus))))
          ∙ ap
              (λ n.
                fill_prstatus of_context k context top ts n
                  (h ∷ ((xs ++ (snap ∷ [])) ++ replicate m' zero_prstatus)))
              one_more
          ∙ others_lem (xs ++ (snap ∷ [])) m' (omega arith)
          ∙ ap (λ l. head_after h ts ∷ l)
              (append_assoc xs (snap ∷ []) (map (snapshot k) (others top ts)))

  -- Filling it again changes nothing.
  fill_head_again : (h : PrStatus) → fill_head (fill_head h) ≡ fill_head h
  unfolding fill_head fill_top
  fill_head_again h = by_context context
    where
      fill : Option Context → PrStatus → PrStatus
      fill o p = get_or (fill_top of_context k o top (p ∷ [])) 0 zero_prstatus

      by_context : (o : Option Context) → fill o (fill o h) ≡ fill o h
      by_context (some x) = refl
      by_context none = read_registers_again k top (record h { pr_pid = top }) refl

  head_after_lem : (ts : List ThreadRecord) (h : PrStatus) → fill_head h ≡ h → head_after h ts ≡ h
  unfolding head_after
  head_after_lem [] h e = refl
  head_after_lem (t ∷ ts) h e = elim (Bool-cases (t.pid == top)) [
    | inl hit ↦ rw hit (ap (λ x. head_after x ts) e ∙ head_after_lem ts h e)
    | inr miss ↦ rw miss (head_after_lem ts h e)
  ]

  -- The dumped thread is in the list.
  abbrev pub IsListed : List ThreadRecord → Type 0
  IsListed ts = length (others top ts) < length ts

  head_after-top :
      (ts : List ThreadRecord) → IsListed ts → head_after zero_prstatus ts ≡ fill_head zero_prstatus
  unfolding head_after fill_head
  head_after-top [] listed = absurd (omega arith)
  head_after-top (t ∷ ts) listed = elim (Bool-cases (t.pid == top)) [
    | inl hit ↦ rw hit (head_after_lem ts (fill_head zero_prstatus) (fill_head_again zero_prstatus))
    | inr miss ↦ rw miss (head_after-top ts (below miss))
  ]
    where
      below : (t.pid == top) ≡ false → IsListed ts
      below miss = omega (
        arith,
        listed,
        ap (λ b. length (if b then others top ts else t.pid ∷ others top ts)) miss,
      )

fill_head-top_entry :
    (of_context : List ℕ → List ℕ) (k : Kernel) (context : Option Context) (top : ℕ)
    → fill_head of_context k context top zero_prstatus ≡ top_entry of_context k context top
unfolding fill_head fill_top
fill_head-top_entry of_context k none top = read_registers-snapshot k top
fill_head-top_entry of_context k (some context) top = refl

-- When the dumped thread is listed exactly once, the table that CreateCorePrStatus makes has that
-- thread first, with the registers of the signal's context or those that ptrace gives, and behind
-- it every other thread, in the order of the list, with the registers that ptrace gives.
pub create_for-threads :
    (of_context : List ℕ → List ℕ) (add_notes : ℕ → ℕ → ℕ) (k : Kernel) (s : OpencoreImpl)
    → length (others s.tid s.threads) + 1 ≡ length s.threads
    → (create_for of_context add_notes k s.threads s).prstatus
      ≡ top_entry of_context k s.ucontext_raw s.tid ∷ map (snapshot k) (others s.tid s.threads)
unfolding create_for
create_for-threads of_context add_notes k s once = by_threads s.threads once
  where
    by_threads :
        (ts : List ThreadRecord)
        → length (others s.tid ts) + 1 ≡ length ts
        → (create_for of_context add_notes k ts s).prstatus
          ≡ top_entry of_context k s.ucontext_raw s.tid ∷ map (snapshot k) (others s.tid ts)
    by_threads [] e = absurd (omega arith)
    by_threads (t ∷ ts) e =
        fill_prstatus_lem of_context k s.ucontext_raw s.tid (t ∷ ts) zero_prstatus [] (length ts)
          (omega arith)
        ∙ ap (λ h. h ∷ map (snapshot k) (others s.tid (t ∷ ts)))
            (head_after-top of_context k s.ucontext_raw s.tid (t ∷ ts) (omega arith)
              ∙ fill_head-top_entry of_context k s.ucontext_raw s.tid)
