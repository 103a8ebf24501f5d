-- ===== src/Prelude/Joined.antt =====
-- The texts that are chosen of a list, joined by a separator.
use mathlib.Core.Path.{◌≡◌, refl, ap, ◌∙◌, sym}
use mathlib.Core.Bool.{Bool, true, false}
use mathlib.Core.List.{List, [], ◌∷◌, ◌++◌, append_assoc}
use Prim.Native.Nat.{ℕ}

-- The texts whose test holds.
abbrev pub chosen : List (Bool × List ℕ) → List (List ℕ)
chosen [] = []
chosen ((true, text) ∷ parts) = text ∷ chosen parts
chosen ((false, text) ∷ parts) = chosen parts

pub chosen-append : (xs ys : List (Bool × List ℕ)) → chosen (xs ++ ys) ≡ chosen xs ++ chosen ys
chosen-append [] ys = refl
chosen-append ((true, text) ∷ xs) ys = ap (λ ts. text ∷ ts) (chosen-append xs ys)
chosen-append ((false, text) ∷ xs) ys = chosen-append xs ys

-- Each text behind a separator, and the texts with a separator between two of them.
abbrev pub each_after : ℕ → List (List ℕ) → List ℕ
each_after sep [] = []
each_after sep (t ∷ ts) = sep ∷ (t ++ each_after sep ts)

abbrev pub joined : ℕ → List (List ℕ) → List ℕ
joined sep [] = []
joined sep (t ∷ ts) = t ++ each_after sep ts

-- What stands before the first text that follows the given ones.
abbrev pub lead : ℕ → List (List ℕ) → List ℕ
lead sep [] = []
lead sep (t ∷ ts) = t ++ (each_after sep ts ++ (sep ∷ []))

each_after-append :
    (sep : ℕ) (ts us : List (List ℕ)) (u : List ℕ)
    → each_after sep (ts ++ (u ∷ us))
      ≡ (each_after sep ts ++ (sep ∷ [])) ++ (u ++ each_after sep us)
each_after-append sep [] us u = refl
each_after-append sep (t ∷ ts) us u =
    ap (λ xs. sep ∷ (t ++ xs)) (each_after-append sep ts us u)
    ∙ ap (λ xs. sep ∷ xs)
        (sym (append_assoc t (each_after sep ts ++ (sep ∷ [])) (u ++ each_after sep us))
          ∙ ap (λ xs. xs ++ (u ++ each_after sep us))
              (sym (append_assoc t (each_after sep ts) (sep ∷ []))))

pub joined-append :
    (sep : ℕ) (ts us : List (List ℕ)) (u : List ℕ)
    → joined sep (ts ++ (u ∷ us)) ≡ lead sep ts ++ (u ++ each_after sep us)
joined-append sep [] us u = refl
joined-append sep (t ∷ ts) us u =
    ap (λ xs. t ++ xs) (each_after-append sep ts us u)
    ∙ sym (append_assoc t (each_after sep ts ++ (sep ∷ [])) (u ++ each_after sep us))
