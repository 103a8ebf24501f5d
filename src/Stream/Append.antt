-- ===== src/Stream/Append.antt =====
-- A stream at its end, over a disk that takes every write: writing is appending.
use open_core_sdk.Prelude.{
  ℕ, ◌+◌, ◌-◌, ◌*◌, map, ◌≡◌, refl, sym, ap, ◌∙◌, arith, List, [], ◌∷◌, ◌++◌, append-nil,
  append_assoc, length, length-append, take-length, drop-all, take, drop, replicate,
}
use open_core_sdk.Stream.{Stream, wrote, put_bytes, fwrite, fwrite_all, fresh}

-- All that was asked for is written, and the disk has no failure in store.
pub record IsAppending (f : Stream) : Type 0 where
  pub at_end : f.pos ≡ length f.bytes
  pub healthy : f.outcomes ≡ []

abbrev pub append : List ℕ → Stream → Stream
append bs f = record f { bytes = f.bytes ++ bs; pos = f.pos + length bs }

abbrev pub concat : List (List ℕ) → List ℕ
concat [] = []
concat (c ∷ cs) = c ++ concat cs

pub append-IsAppending : (bs : List ℕ) {f : Stream} → IsAppending f → IsAppending (append bs f)
append-IsAppending bs {f} v = record {
  at_end = omega (arith, length-append f.bytes bs, v.at_end);
  healthy = v.healthy;
}

pub fresh-IsAppending : IsAppending (fresh [])
fresh-IsAppending = record { at_end = refl; healthy = refl }

pub append_bytes :
    (xs bs : List ℕ) (p : ℕ)
    → p ≡ length xs
    → take p xs ++ (replicate (p - length xs) 0 ++ (bs ++ drop (p + length bs) xs)) ≡ xs ++ bs
append_bytes xs bs p e =
    let gap : p - length xs ≡ 0 = omega arith in
    rw (gap, drop-all (p + length bs) xs (omega arith), append-nil bs, e, take-length xs)

pub put_bytes-append : (bs : List ℕ) {f : Stream} → IsAppending f → put_bytes bs f ≡ append bs f
unfolding put_bytes
put_bytes-append bs {f} v i = record f {
  bytes = append_bytes f.bytes bs f.pos v.at_end i;
  pos = f.pos + length bs;
}

pub append-nil_stream : (f : Stream) → append [] f ≡ f
append-nil_stream f i = record f {
  bytes = append-nil f.bytes i;
  pos = (let e : f.pos + 0 ≡ f.pos = omega arith in e) i;
}

pub append-append : (xs ys : List ℕ) (f : Stream) → append ys (append xs f) ≡ append (xs ++ ys) f
append-append xs ys f i = record f { bytes = append_assoc f.bytes xs ys i; pos = total i }
  where
    total : f.pos + length xs + length ys ≡ f.pos + length (xs ++ ys)
    total = omega (arith, length-append xs ys)

pub fwrite-append : (bs : List ℕ) {f : Stream} → IsAppending f → fwrite bs f ≡ (wrote, append bs f)
unfolding fwrite
fwrite-append bs {f} v = ground (arith, put_bytes-append bs v)

pub fwrite_all-append :
    (cs : List (List ℕ)) {f : Stream} → IsAppending f → fwrite_all cs f ≡ append (concat cs) f
unfolding fwrite_all
fwrite_all-append [] {f} v = sym (append-nil_stream f)
fwrite_all-append (c ∷ cs) {f} v =
    rw (fwrite-append c v)
      (fwrite_all-append cs (append-IsAppending c v) ∙ append-append c (concat cs) f)

pub concat-append : (xs ys : List (List ℕ)) → concat (xs ++ ys) ≡ concat xs ++ concat ys
concat-append [] ys = refl
concat-append (x ∷ xs) ys =
    ap (λ t. x ++ t) (concat-append xs ys) ∙ sym (append_assoc x (concat xs) (concat ys))

pub length-concat-append :
    (xs ys : List (List ℕ)) → length (concat (xs ++ ys)) ≡ length (concat xs) + length (concat ys)
length-concat-append [] ys = omega arith
length-concat-append (x ∷ xs) ys = omega (
  arith,
  length-append x (concat (xs ++ ys)),
  length-append x (concat xs),
  length-concat-append xs ys,
)

-- Calls that each write `size` bytes.
pub length-concat-map {ℓ} :
    {A : Type ℓ} (size : ℕ) (encode : A → List ℕ) (xs : List A)
    → ((x : A) → length (encode x) ≡ size)
    → length (concat (map encode xs)) ≡ size * length xs
length-concat-map size encode [] h = omega arith
length-concat-map size encode (x ∷ xs) h = omega (
  arith,
  length-append (encode x) (concat (map encode xs)),
  h x,
  length-concat-map size encode xs h,
)

-- Two rows of calls are one.
pub fwrite_all-append_calls :
    (xs ys : List (List ℕ)) (f : Stream) → fwrite_all (xs ++ ys) f ≡ fwrite_all ys (fwrite_all xs f)
unfolding fwrite_all
fwrite_all-append_calls [] ys f = refl
fwrite_all-append_calls (x ∷ xs) ys f = fwrite_all-append_calls xs ys (fwrite x f).1
