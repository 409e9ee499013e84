-- ===== src/PressureCurve/Drawn.antt =====
-- What drawing does to a table: which cells it fills, with what, and which it keeps.
use xf86_input_wacom.Prelude.{
  ℕ, zero, suc, ◌+◌, ◌-◌, ◌≤◌, ◌<◌, ◌≡◌, ◌∙◌, refl, some, List, length, set, get_elem?, length-set,
  get_elem?-set_self, get_elem?-set_ne, arith,
}
use mathlib.Core.Path.{subst}
use xf86_input_wacom.Prelude.Int.{ℤ, pos}

-- The direction in which a coordinate moves.
pub data Direction : Type 0 where
  up down : Direction

-- `b` lies `r` steps ahead of `a`.
abbrev pub Ahead : Direction → ℕ → ℕ → ℕ → Type 0
Ahead up a b r = a + r ≡ b
Ahead down a b r = b + r ≡ a

unfoldable pub move : Direction → ℕ → ℕ
move up n = n + 1
move down n = n - 1

pub Ahead-move : (w : Direction) (a b r : ℕ) → Ahead w a b (suc r) → Ahead w (move w a) b r
unfolding move
Ahead-move up a b r h = omega arith
Ahead-move down a b r h = omega arith

pub Ahead-moved :
    (w : Direction) (s a b k r : ℕ)
    → Ahead w s a k
    → Ahead w a b (suc r)
    → Ahead w s (move w a) (suc k)
unfolding move
Ahead-moved up s a b k r h g = omega arith
Ahead-moved down s a b k r h g = omega arith

pub Ahead-here : (w : Direction) (a b : ℕ) → Ahead w a b 0 → a ≡ b
Ahead-here up a b h = omega arith
Ahead-here down a b h = omega arith

Ahead-self : (w : Direction) (a : ℕ) → Ahead w a a 0
Ahead-self up a = omega arith
Ahead-self down a = omega arith

Ahead-before :
    (w : Direction) (a b i p r : ℕ)
    → Ahead w a b (suc r)
    → Ahead w (move w a) i p
    → Ahead w a i (suc p)
unfolding move
Ahead-before up a b i p r h g = omega arith
Ahead-before down a b i p r h g = omega arith

-- A cell behind the next one is not ahead of it.
not-behind : (w : Direction) (a b r p : ℕ) → Ahead w a b (suc r) → ¬ Ahead w (move w a) a p
unfolding move
not-behind up a b r p h g = omega arith
not-behind down a b r p h g = omega arith

-- From cell `a` over `r` more cells in direction `w`, the table `c` has become `t`: each of these
-- cells holds a value that `Near` allows, and all others are kept.
pub record Drawn (Near : ℕ → ℕ → Type 0) (w : Direction) (a r : ℕ) (c t : List ℤ) : Type 0 where
  pub same_length : length t ≡ length c
  pub covered :
      (i p : ℕ) → Ahead w a i p → p ≤ r → (v : ℕ) × (get_elem? t i ≡ some (pos v)) × Near i v
  pub kept : (i : ℕ) → ((p : ℕ) → Ahead w a i p → p ≤ r → ⊥) → get_elem? t i ≡ get_elem? c i

untouched :
    (w : Direction) (a v : ℕ) (c : List ℤ) (i : ℕ)
    → ¬ Ahead w a i 0
    → get_elem? (set c a (pos v)) i ≡ get_elem? c i
untouched w a v c i out =
    get_elem?-set_ne c a i (pos v) (λ e. out (subst (λ b. Ahead w a b 0) e (Ahead-self w a)))

module _ (Near : ℕ → ℕ → Type 0) (w : Direction) (a v : ℕ) (c : List ℤ) where
  -- The cell that was written, and is not written again.
  written :
      (t : List ℤ) (i : ℕ)
      → a < length c
      → Near a v
      → get_elem? t a ≡ get_elem? (set c a (pos v)) a
      → Ahead w a i 0
      → (u : ℕ) × (get_elem? t i ≡ some (pos u)) × Near i u
  written t i inside near e h =
      rw (← Ahead-here w a i h) (v, e ∙ get_elem?-set_self c a (pos v) inside, near)

  pub Drawn-stop : a < length c → Near a v → Drawn Near w a 0 c (set c a (pos v))
  Drawn-stop inside near = record {
    same_length = length-set c a (pos v);
    covered = covered;
    kept = λ i out. untouched w a v c i (λ h. out 0 h (omega arith));
  }
    where
      covered :
          (i p : ℕ)
          → Ahead w a i p
          → p ≤ 0
          → (u : ℕ) × (get_elem? (set c a (pos v)) i ≡ some (pos u)) × Near i u
      covered i zero h le = written (set c a (pos v)) i inside near refl h
      covered i (suc p) h le = absurd (omega arith)

  -- A write before more drawing that starts in the same cell.
  pub Drawn-stay :
      (r : ℕ) (t : List ℤ) → Drawn Near w a r (set c a (pos v)) t → Drawn Near w a r c t
  Drawn-stay r t h = record {
    same_length = h.same_length ∙ length-set c a (pos v);
    covered = h.covered;
    kept = λ i out. h.kept i out ∙ untouched w a v c i (λ e. out 0 e (omega arith));
  }

  -- A write before more drawing that starts in the next cell.
  pub Drawn-move :
      (b r : ℕ) (t : List ℤ)
      → Ahead w a b (suc r)
      → a < length c
      → Near a v
      → Drawn Near w (move w a) r (set c a (pos v)) t
      → Drawn Near w a (suc r) c t
  Drawn-move b r t ahead inside near h = record {
    same_length = h.same_length ∙ length-set c a (pos v);
    covered = covered;
    kept = λ i out.
        h.kept i (λ p e le. out (suc p) (Ahead-before w a b i p r ahead e) (omega arith))
        ∙ untouched w a v c i (λ e. out 0 e (omega arith));
  }
    where
      covered :
          (i p : ℕ)
          → Ahead w a i p
          → p ≤ suc r
          → (u : ℕ) × (get_elem? t i ≡ some (pos u)) × Near i u
      covered i zero e le =
          written t i inside near (h.kept a (λ p g le'. not-behind w a b r p ahead g)) e
      covered i (suc p) e le = h.covered i p (Ahead-move w a i p e) (omega arith)
