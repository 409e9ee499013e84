-- ===== src/Session/Scroll/Notches.antt =====
-- Panscroll by notches loses no movement: the clicks sent so far and the remainder kept make up
-- what the pen moved.
use xf86_input_wacom.Prelude.{
  ℕ, zero, suc, ◌+◌, ◌<◌, ◌≡◌, ◌≢◌, refl, sym, ap, ◌∙◌, inl, inr, Bool, true, false, ◌&&◌,
  Bool-cases, List, [], ◌∷◌, ◌==◌, if◌then◌else◌, arith,
}
use xf86_input_wacom.Prelude.Int.{
  ℤ, pos, abs, ◌+ℤ◌, ◌-ℤ◌, ◌*ℤ◌, tdiv, tmod, tdiv-tmod, tmod-lt, +ℤ_times, int_laws, ltb_ℤ,
}
use xf86_input_wacom.Axes.{no_axes}
use xf86_input_wacom.Session.{
  Session, Emit, emit, motion, button, keycode, prog_key, proximity_event, serial_update,
  touch_event, tap_timer,
}
use xf86_input_wacom.Session.Scroll.{clicks, button_per_notch}

-- The presses of button `b` among the calls.
abbrev pub presses : ℕ → List Emit → ℕ
presses b [] = 0
presses b (button mode b' p axes ∷ calls) =
    let rest = presses b calls in if p && (b' == b) then suc rest else rest
presses b (motion a axes ∷ calls) = presses b calls
presses b (keycode k p ∷ calls) = presses b calls
presses b (prog_key k p ∷ calls) = presses b calls
presses b (proximity_event p axes ∷ calls) = presses b calls
presses b (touch_event k n x y ∷ calls) = presses b calls
presses b (tap_timer n ∷ calls) = presses b calls
presses b (serial_update ∷ calls) = presses b calls

presses-clicks_self :
    (n : ℕ) (mode : Bool) (b : ℕ) (s : Session)
    → presses b (clicks n mode b s).calls ≡ n + presses b s.calls
unfolding clicks emit
presses-clicks_self zero mode b s = omega arith
presses-clicks_self (suc n) mode b s =
    presses-clicks_self n mode b
      (emit (emit s (button mode b true no_axes)) (button mode b false no_axes))
    ∙ ground arith

presses-clicks_other :
    (n : ℕ) (mode : Bool) (b c : ℕ) (s : Session)
    → b ≢ c
    → presses c (clicks n mode b s).calls ≡ presses c s.calls
unfolding clicks emit
presses-clicks_other zero mode b c s ne = refl
presses-clicks_other (suc n) mode b c s ne =
    presses-clicks_other n mode b c
      (emit (emit s (button mode b true no_axes)) (button mode b false no_axes)) ne
    ∙ ground arith

-- The notches that the calls scrolled, by the clicks of two opposite buttons.
abbrev pub notches_sent : ℕ → ℕ → Session → ℤ
notches_sent up down s = pos (presses up s.calls) -ℤ pos (presses down s.calls)

up_sum : (t : ℤ) (a b : ℕ) → ltb_ℤ (pos 0) t ≡ true → pos (abs t + a) -ℤ pos b ≡ pos a -ℤ pos b +ℤ t
unfolding ◌+ℤ◌ ◌-ℤ◌
up_sum t a b h = ground arith

down_sum :
    (t : ℤ) (a b : ℕ) → ltb_ℤ (pos 0) t ≡ false → pos a -ℤ pos (abs t + b) ≡ pos a -ℤ pos b +ℤ t
unfolding ◌+ℤ◌ ◌-ℤ◌
down_sum t a b h = ground arith

notches-button_per_notch :
    (value threshold : ℤ) (up down : ℕ) (s : Session)
    → up ≢ down
    → notches_sent up down (button_per_notch value threshold up down s).0
      ≡ notches_sent up down s +ℤ tdiv value threshold
unfolding button_per_notch
notches-button_per_notch value threshold up down s ne =
    elim (Bool-cases (ltb_ℤ (pos 0) (tdiv value threshold))) [
      | inl more ↦
          rw (more, presses-clicks_self, presses-clicks_other _ _ up down s ne)
            (up_sum (tdiv value threshold) _ _ more)
      | inr less ↦
          rw (less, presses-clicks_self, presses-clicks_other _ _ down up s (λ e. ne (sym e)))
            (down_sum (tdiv value threshold) _ _ less)
    ]

+ℤ_assoc : (a b c : ℤ) → a +ℤ b +ℤ c ≡ a +ℤ (b +ℤ c)
+ℤ_assoc a b c = omega int_laws

rest-button_per_notch :
    (value threshold : ℤ) (up down : ℕ) (s : Session)
    → (button_per_notch value threshold up down s).1 ≡ tmod value threshold
unfolding button_per_notch
rest-button_per_notch value threshold up down s = refl

-- What was sent, in units of the axis, and the remainder make up the value; the remainder is short
-- of a notch. For two different buttons and a threshold that is not 0.
pub button_per_notch_conserves :
    (value threshold : ℤ) (up down : ℕ) (s : Session)
    → up ≢ down
    → 0 < abs threshold
    → let (s', rest) = button_per_notch value threshold up down s in
      (notches_sent up down s' *ℤ threshold +ℤ rest ≡ notches_sent up down s *ℤ threshold +ℤ value)
      × (abs rest < abs threshold)
button_per_notch_conserves value threshold up down s ne h =
    rw (rest-button_per_notch value threshold up down s) (
      rw (notches-button_per_notch value threshold up down s ne, +ℤ_times)
          (+ℤ_assoc _ _ _
            ∙ ap (λ (v : ℤ). notches_sent up down s *ℤ threshold +ℤ v) (tdiv-tmod value threshold)),
      tmod-lt value threshold h,
    )
