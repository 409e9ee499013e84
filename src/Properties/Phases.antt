-- ===== src/Properties/Phases.antt =====
-- Checking a list of actions stores nothing, and a property that an action uses cannot be deleted:
-- `wcmSetActionsProperty`, `wcmSetActionProperty` and `wcmDeleteProperty` of src/x11/xf86WacomProperties.c.
use xf86_input_wacom.Prelude.{
  ℕ, zero, suc, ◌<◌, ◌≡◌, ◌≢◌, refl, ap, ◌∙◌, true, Option, none, List, [], ◌∷◌, get_or, set,
  length, ◌==◌, arith, Bool-cases, Option-cases, inl, inr,
}
use xf86_input_wacom.State.{Device, Action}
use xf86_input_wacom.Properties.{
  Status, success, bad_match, bad_value, bad_access, PropertyValue, Setting, set_action_property,
  set_checked, check_action_property, values_of,
}
use xf86_input_wacom.Session.Mode.{no_action}
use xf86_input_wacom.Properties.Lists.{
  actions, put_setting, set_at, set_atom, World, go_on, set_atoms, place, checked_then,
  check_actions_property, set_actions_property, list_size, Server, ListProperty, btnactions,
  strip_buttons, wheel_buttons, handlers, find_prop, find_action_handler, delete_property,
}

find_prop-finds :
    (property i : ℕ) (props : List ℕ) (j : ℕ)
    → j < length props
    → get_or props j 0 ≡ property
    → find_prop property i props ≢ none
unfolding find_prop
find_prop-finds property i [] j h e = elim h [ ]
find_prop-finds property i (a ∷ as') zero h e = ground arith
find_prop-finds property i (a ∷ as') (suc j) h e =
    ground (arith, find_prop-finds property (suc i) as' j)

find_action_handler-finds :
    (l : ListProperty) (d : Device) (property j : ℕ)
    → j < length (handlers l d)
    → get_or (handlers l d) j 0 ≡ property
    → find_action_handler d property ≢ none
unfolding find_action_handler
find_action_handler-finds btnactions d property j h e =
    ground (arith, find_prop-finds property 0 d.action_props.btn j h e)
find_action_handler-finds strip_buttons d property j h e =
    ground (arith, find_prop-finds property 0 d.action_props.strip j h e)
find_action_handler-finds wheel_buttons d property j h e =
    ground (arith, find_prop-finds property 0 d.action_props.wheel j h e)

-- A property that some button, strip or wheel uses for its action cannot be deleted.
pub delete_property_used :
    (l : ListProperty) (d : Device) (property j : ℕ)
    → j < length (handlers l d)
    → get_or (handlers l d) j 0 ≡ property
    → delete_property d property ≡ bad_access
unfolding delete_property
delete_property_used l d property j h e =
    ground (arith, find_action_handler-finds l d property j h e)

set-get_or {ℓ} : {A : Type ℓ} (xs : List A) (i : ℕ) (d : A) → set xs i (get_or xs i d) ≡ xs
set-get_or [] i d = refl
set-get_or (x ∷ xs) zero d = refl
set-get_or (x ∷ xs) (suc i) d = ap (λ t. x ∷ t) (set-get_or xs i d)

put_setting_same :
    (l : ListProperty) (i : ℕ) (st : Status) (d : Device)
    → (put_setting l i (st, get_or (handlers l d) i 0, get_or (actions l d) i no_action) d).1 ≡ d
unfolding put_setting
put_setting_same btnactions i st d = simp (set-get_or)
put_setting_same strip_buttons i st d = simp (set-get_or)
put_setting_same wheel_buttons i st d = simp (set-get_or)

set_checked_check :
    (st : Status) (property : ℕ) (vs : List ℕ) (h : ℕ) (a : Action)
    → set_checked st true property vs h a ≡ (st, h, a)
unfolding set_checked
set_checked_check success property vs h a = refl
set_checked_check bad_match property vs h a = refl
set_checked_check bad_value property vs h a = refl
set_checked_check bad_access property vs h a = refl

set_at_check :
    (l : ListProperty) (i property : ℕ) (p : Option PropertyValue) (d : Device)
    → (set_at l i property p true d).1 ≡ d
unfolding set_at set_action_property
set_at_check l i property p d =
    let st = check_action_property property p in
    ap (λ (t : Setting). (put_setting l i t d).1)
      (set_checked_check st property (values_of p) (get_or (handlers l d) i 0)
        (get_or (actions l d) i no_action))
    ∙ put_setting_same l i st d

module _ (server : Server) (l : ListProperty) where
  set_atom_check : (k v : ℕ) (w : World server) → (set_atom server l k v true w).1 ≡ w
  unfolding set_atom
  set_atom_check k v (d, x) = elim (Bool-cases (v == 0)) [
    | inl none_set ↦ rw none_set refl
    | inr some_set ↦
        rw some_set (ap (λ (e : Device). (e, x)) (set_at_check l k v (server.get x v) d))
  ]

  go_on_check :
      (rest : World server → Status × World server) (r : Status × World server) (w : World server)
      → r.1 ≡ w
      → ((rest w).1 ≡ w)
      → (go_on server rest r).1 ≡ w
  go_on_check rest (success, v) w e h = ap (λ (u : World server). (rest u).1) e ∙ h
  go_on_check rest (bad_match, v) w e h = e
  go_on_check rest (bad_value, v) w e h = e
  go_on_check rest (bad_access, v) w e h = e

  set_atoms_check :
      (i : ℕ) (vs : List ℕ) (w : World server) → (set_atoms server l i vs true w).1 ≡ w
  unfolding set_atoms
  set_atoms_check i [] w = refl
  set_atoms_check i (v ∷ vs) w = elim (Option-cases (place l i)) [
    | inl e ↦ rw (e, set_atoms) (set_atoms_check (suc i) vs w)
    | inr (k, e) ↦
        rw (e, set_atoms)
          (go_on_check (λ u. set_atoms server l (suc i) vs true u) (set_atom server l k v true w) w
            (set_atom_check k v w) (set_atoms_check (suc i) vs w))
  ]

  checked_then_check :
      (w : World server) (st : Status) (r : Status × World server)
      → r.1 ≡ w
      → (checked_then server w st r).1 ≡ w
  checked_then_check w success r e = e
  checked_then_check w bad_match r e = refl
  checked_then_check w bad_value r e = refl
  checked_then_check w bad_access r e = refl

  -- Checking a list of actions leaves the device and the server's properties as they were, whatever the list.
  pub set_actions_property_checks :
      (property : ℕ) (p : PropertyValue) (w : World server)
      → (set_actions_property server l property p true w).1 ≡ w
  unfolding set_actions_property
  set_actions_property_checks property p w = elim (Bool-cases (p.size == list_size l w.0)) [
    | inl fits ↦ rw fits (
        checked_then_check w (check_actions_property server w.1 property p)
          (set_atoms server l 0 p.values true w) (set_atoms_check 0 p.values w))
    | inr other ↦ rw other refl
  ]
