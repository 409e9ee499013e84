-- ===== src/Properties/Actions.antt =====
-- What setting a property of actions does: `wcmSetActionProperty` of src/x11/xf86WacomProperties.c.
use xf86_input_wacom.Prelude.{
  ℕ, zero, suc, ◌+◌, ◌≤◌, ◌<◌, ◌≡◌, refl, sym, ap, ◌∙◌, true, false, some, List, [], ◌∷◌, ◌++◌, set,
  take, length, length-set, length-replicate, ltb, arith,
}
use mathlib.Core.List.{append_assoc, append-nil}
use xf86_input_wacom.State.{Action}
use xf86_input_wacom.Session.Mode.{action_set, no_action}
use xf86_input_wacom.Properties.{
  success, PropertyValue, check_value, check_action_property, set_actions, set_checked,
  set_action_property,
}

take-set : (l : List ℕ) (i v : ℕ) → i < length l → take (suc i) (set l i v) ≡ take i l ++ v ∷ []
take-set [] i v h = elim h [ ]
take-set (x ∷ xs) zero v h = refl
take-set (x ∷ xs) (suc i) v h = ap (λ (l : List ℕ). x ∷ l) (take-set xs i v (omega arith))

-- The actions that an `Action` holds.
abbrev pub held_actions : Action → List ℕ
held_actions a = take a.nactions a.action

-- An action list with room for `n` more than the `i` that it holds.
record HasRoom (i n : ℕ) (a : Action) : Type 0 where
  slots : length a.action ≡ 256
  fits : i + n ≤ 256
  held : a.nactions ≡ i

next-HasRoom : (i n v : ℕ) (a : Action) → HasRoom i (suc n) a → HasRoom (suc i) n (action_set a i v)
unfolding action_set
next-HasRoom i n v a r = rw inside record {
  slots = length-set a.action i v ∙ r.slots;
  fits = omega (arith, r.fits);
  held = omega arith;
}
  where
    inside : ltb i 256 ≡ true
    inside = ground (arith, r.fits)

held-action_set :
    (i n v : ℕ) (a : Action)
    → HasRoom i (suc n) a
    → held_actions (action_set a i v) ≡ held_actions a ++ v ∷ []
unfolding action_set
held-action_set i n v a r =
    rw (inside, r.held)
      (ap (λ (k : ℕ). take k (set a.action i v)) one_more
        ∙ take-set a.action i v (omega (arith, r.slots, r.fits)))
  where
    inside : ltb i 256 ≡ true
    inside = ground (arith, r.fits)

    one_more : i + 1 ≡ suc i
    one_more = omega arith

set_actions_lem :
    (vs : List ℕ) (i : ℕ) (a : Action)
    → HasRoom i (length vs) a
    → held_actions (set_actions i vs a) ≡ held_actions a ++ vs
unfolding set_actions
set_actions_lem [] i a r = sym (append-nil (held_actions a))
set_actions_lem (v ∷ vs) i a r =
    set_actions_lem vs (suc i) (action_set a i v) (next-HasRoom i (length vs) v a r)
    ∙ ap (λ (l : List ℕ). l ++ vs) (held-action_set i (length vs) v a r)
    ∙ append_assoc (held_actions a) (v ∷ []) vs

size_fits :
    (property : ℕ) (p : PropertyValue)
    → check_action_property property (some p) ≡ success
    → p.size < 255
unfolding check_action_property check_value
size_fits property p h = ground arith

-- A property of actions whose values are found good is set: the call succeeds, the action holds exactly these
-- values in their order, and the handler is the property.
pub set_action_property_sets :
    (property handler : ℕ) (p : PropertyValue) (act : Action)
    → length p.values ≡ p.size
    → check_action_property property (some p) ≡ success
    → let (status, handler', act') = set_action_property property (some p) false handler act in
      (status ≡ success) × (handler' ≡ property) × (held_actions act' ≡ p.values)
unfolding set_action_property set_checked
set_action_property_sets property handler p act sized good = rw good (
  refl,
  refl,
  set_actions_lem p.values 0 no_action record {
    slots = length-replicate {A = ℕ} 256 0;
    fits = omega (arith, sized, size_fits property p good);
    held = refl;
  },
)
