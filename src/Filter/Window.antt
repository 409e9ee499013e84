-- ===== src/Filter/Window.antt =====
-- What a new sample does to one array of the window: the first one fills it, a later one enters at
-- the front and the oldest leaves.
use xf86_input_wacom.Prelude.{
  ℕ, zero, suc, ◌-◌, ◌≤◌, ◌<◌, ◌≡◌, refl, ap, ◌∙◌, List, [], ◌∷◌, ◌++◌, set, get_or, take, drop,
  replicate, length, length-set, arith,
}
use xf86_input_wacom.Prelude.Int.{ℤ, pos}
use xf86_input_wacom.Filter.{fill, shift, store_first, store_next}

fill-cons : (n : ℕ) (v x : ℤ) (xs : List ℤ) → fill (suc n) v (x ∷ xs) ≡ v ∷ fill n v xs
unfolding fill
fill-cons zero v x xs = refl
fill-cons (suc n) v x xs = fill-cons n v x (set xs n v)

fill_lem : (n : ℕ) (v : ℤ) (xs : List ℤ) → n ≤ length xs → fill n v xs ≡ replicate n v ++ drop n xs
unfolding fill
fill_lem zero v xs h = refl
fill_lem (suc n) v [] h = absurd (omega arith)
fill_lem (suc n) v (x ∷ xs) h = fill-cons n v x xs ∙ ap (λ l. v ∷ l) (fill_lem n v xs (omega arith))

-- One round of the shifting loop, seen from the front of the array.
shift_round :
    (n : ℕ) (x : ℤ) (xs : List ℤ)
    → n < length xs
    → let xs' = set xs n (get_or (x ∷ xs) n (pos 0)) in
      take n (x ∷ xs') ++ drop n xs' ≡ take (suc n) (x ∷ xs) ++ drop (suc n) xs
shift_round n x [] h = absurd (omega arith)
shift_round zero x (y ∷ ys) h = refl
shift_round (suc n) x (y ∷ ys) h = ap (λ l. x ∷ l) (shift_round n y ys (omega arith))

shift_lem :
    (n : ℕ) (x : ℤ) (xs : List ℤ)
    → n ≤ length xs
    → shift n (x ∷ xs) ≡ x ∷ (take n (x ∷ xs) ++ drop n xs)
unfolding shift
shift_lem zero x xs h = refl
shift_lem (suc n) x xs h =
    shift_lem n x (set xs n (get_or (x ∷ xs) n (pos 0))) (rw length-set (omega arith))
    ∙ ap (λ l. x ∷ l) (shift_round n x xs (omega arith))

take-replicate : (n : ℕ) (v : ℤ) (ys : List ℤ) → take n (replicate n v ++ ys) ≡ replicate n v
take-replicate zero v ys = refl
take-replicate (suc n) v ys = ap (λ l. v ∷ l) (take-replicate n v ys)

take-take : (n : ℕ) (xs ys : List ℤ) → n ≤ length xs → take n (take n xs ++ ys) ≡ take n xs
take-take zero xs ys h = refl
take-take (suc n) [] ys h = absurd (omega arith)
take-take (suc n) (x ∷ xs) ys h = ap (λ l. x ∷ l) (take-take n xs ys (omega arith))

-- The first sample is in every place of the window.
pub store_first-window :
    (n : ℕ) (v : ℤ) (xs : List ℤ) → n ≤ length xs → take n (store_first n v xs) ≡ replicate n v
unfolding store_first
store_first-window n v xs h = rw (fill_lem n v xs h) (take-replicate n v (drop n xs))

-- A later sample enters the window of `n` samples at the front, and the last one leaves; `n` is positive
-- and at most the array's length.
pub store_next-window :
    (n : ℕ) (v : ℤ) (xs : List ℤ)
    → 0 < n
    → n ≤ length xs
    → take n (store_next n v xs) ≡ v ∷ take (n - 1) xs
unfolding store_next
store_next-window zero v xs p h = elim p [ ]
store_next-window (suc m) v [] p h = absurd (omega arith)
store_next-window (suc m) v (x ∷ xs) p h =
    let e : suc m - 1 ≡ m = omega arith in
    rw (e, shift_lem m x xs (omega arith))
      (ap (λ l. v ∷ l) (take-take m (x ∷ xs) (drop m xs) (omega arith)))

length-fill : (n : ℕ) (v : ℤ) (xs : List ℤ) → length (fill n v xs) ≡ length xs
unfolding fill
length-fill zero v xs = refl
length-fill (suc n) v xs = length-fill n v (set xs n v) ∙ length-set xs n v

length-shift : (n : ℕ) (xs : List ℤ) → length (shift n xs) ≡ length xs
unfolding shift
length-shift zero xs = refl
length-shift (suc n) xs = length-shift n _ ∙ length-set xs (suc n) _

pub length-store_first : (n : ℕ) (v : ℤ) (xs : List ℤ) → length (store_first n v xs) ≡ length xs
unfolding store_first
length-store_first n v xs = length-fill n v xs

pub length-store_next : (n : ℕ) (v : ℤ) (xs : List ℤ) → length (store_next n v xs) ≡ length xs
unfolding store_next
length-store_next n v xs = length-set (shift (n - 1) xs) 0 v ∙ length-shift (n - 1) xs
