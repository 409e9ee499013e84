-- ===== src/Properties/Steps.antt =====
-- One step of the loop of `wcmSetActionsProperty` in src/x11/xf86WacomProperties.c: what it leaves of the handlers.
use xf86_input_wacom.Prelude.{
  ℕ, suc, ◌≡◌, refl, sym, ap, ◌∙◌, false, Option, none, some, List, ◌∷◌, get_or, set, ◌==◌,
  if◌then◌else◌, arith, Bool-cases, inl, inr,
}
use xf86_input_wacom.State.{Device, Action}
use xf86_input_wacom.Session.Mode.{
  no_action, reset_button_action, reset_strip_action, reset_wheel_action,
}
use xf86_input_wacom.Properties.{
  Status, success, bad_match, bad_value, bad_access, PropertyValue, Setting, set_action_property,
  set_checked, check_action_property, values_of,
}
use xf86_input_wacom.Properties.Lists.{
  actions, Server, ListProperty, btnactions, strip_buttons, wheel_buttons, place, handlers,
  put_handlers, set_at, put_setting, set_atom, set_atoms, init_action_prop, go_on, World,
  action_atom, reset_action,
}

handlers-reset :
    (l : ListProperty) (d : Device) (i : ℕ) → handlers l (reset_action l d i) ≡ handlers l d
unfolding reset_button_action reset_strip_action reset_wheel_action
handlers-reset btnactions d i = refl
handlers-reset strip_buttons d i = refl
handlers-reset wheel_buttons d i = refl

handlers-put : (l : ListProperty) (hs : List ℕ) (d : Device) → handlers l (put_handlers l hs d) ≡ hs
handlers-put btnactions hs d = refl
handlers-put strip_buttons hs d = refl
handlers-put wheel_buttons hs d = refl

set_checked_handler :
    (st : Status) (property : ℕ) (vs : List ℕ) (h : ℕ) (a : Action)
    → (set_checked st false property vs h a).0 ≡ success
    → (set_checked st false property vs h a).1 ≡ property
unfolding set_checked
set_checked_handler success property vs h a e = refl
set_checked_handler bad_match property vs h a e = cc
set_checked_handler bad_value property vs h a e = cc
set_checked_handler bad_access property vs h a e = cc

handlers-put_setting :
    (l : ListProperty) (i : ℕ) (t : Setting) (d : Device)
    → handlers l (put_setting l i t d).1 ≡ set (handlers l d) i t.1
unfolding put_setting
handlers-put_setting btnactions i t d = refl
handlers-put_setting strip_buttons i t d = refl
handlers-put_setting wheel_buttons i t d = refl

set_action_property_handler :
    (property : ℕ) (p : Option PropertyValue) (h : ℕ) (a : Action)
    → (set_action_property property p false h a).0 ≡ success
    → (set_action_property property p false h a).1 ≡ property
unfolding set_action_property
set_action_property_handler property p h a e =
    set_checked_handler (check_action_property property p) property (values_of p) h a e

handlers-set_at :
    (l : ListProperty) (i property : ℕ) (p : Option PropertyValue) (d : Device)
    → (set_at l i property p false d).0 ≡ success
    → handlers l (set_at l i property p false d).1 ≡ set (handlers l d) i property
unfolding set_at put_setting
handlers-set_at l i property p d e =
    let h = get_or (handlers l d) i 0 in
    let a = get_or (actions l d) i no_action in
    handlers-put_setting l i (set_action_property property p false h a) d
    ∙ ap (λ (t : ℕ). set (handlers l d) i t) (set_action_property_handler property p h a e)

nbuttons-put_handlers :
    (l : ListProperty) (hs : List ℕ) (d : Device) → (put_handlers l hs d).nbuttons ≡ d.nbuttons
nbuttons-put_handlers btnactions hs d = refl
nbuttons-put_handlers strip_buttons hs d = refl
nbuttons-put_handlers wheel_buttons hs d = refl

nbuttons-reset :
    (l : ListProperty) (d : Device) (i : ℕ) → (reset_action l d i).nbuttons ≡ d.nbuttons
unfolding reset_button_action reset_strip_action reset_wheel_action
nbuttons-reset btnactions d i = refl
nbuttons-reset strip_buttons d i = refl
nbuttons-reset wheel_buttons d i = refl

nbuttons-put_setting :
    (l : ListProperty) (i : ℕ) (t : Setting) (d : Device)
    → (put_setting l i t d).1.nbuttons ≡ d.nbuttons
unfolding put_setting
nbuttons-put_setting btnactions i t d = refl
nbuttons-put_setting strip_buttons i t d = refl
nbuttons-put_setting wheel_buttons i t d = refl

pub place-injective :
    (l : ListProperty) (i j k : ℕ) → place l i ≡ some k → place l j ≡ some k → i ≡ j
unfolding place
place-injective btnactions i j k p q = ground arith
place-injective strip_buttons i j k p q = cc
place-injective wheel_buttons i j k p q = cc

module _ (server : Server) (l : ListProperty) where
  -- The handler that an atom leaves at its place.
  abbrev pub handler_of : ℕ → ℕ → ℕ
  handler_of k v = if v == 0 then action_atom server l k else v

  abbrev pub device_of : Status × World server → Device
  device_of r = r.1.0

  pub handlers-set_atom :
      (k v : ℕ) (w : World server)
      → (set_atom server l k v false w).0 ≡ success
      → handlers l (device_of (set_atom server l k v false w))
        ≡ set (handlers l w.0) k (handler_of k v)
  unfolding set_atom init_action_prop
  handlers-set_atom k v (d, x) e = elim (Bool-cases (v == 0)) [
    | inl none_set ↦ rw none_set (
        handlers-put l _ (reset_action l d k)
        ∙ ap (λ (hs : List ℕ). set hs k (action_atom server l k)) (handlers-reset l d k))
    | inr some_set ↦ rw some_set (handlers-set_at l k v (server.get x v) d (rw some_set at e))
  ]

  pub nbuttons-set_atom :
      (k v : ℕ) (w : World server)
      → (device_of (set_atom server l k v false w)).nbuttons ≡ w.0.nbuttons
  unfolding set_atom init_action_prop set_at
  nbuttons-set_atom k v (d, x) = elim (Bool-cases (v == 0)) [
    | inl none_set ↦
        rw none_set (nbuttons-put_handlers l _ (reset_action l d k) ∙ nbuttons-reset l d k)
    | inr some_set ↦ rw some_set (nbuttons-put_setting l k _ d)
  ]

  go_on_success :
      (rest : World server → Status × World server) (r : Status × World server)
      → (go_on server rest r).0 ≡ success
      → (r.0 ≡ success) × (go_on server rest r ≡ rest r.1)
  go_on_success rest (success, w) e = (refl, refl)
  go_on_success rest (bad_match, w) e = cc
  go_on_success rest (bad_value, w) e = cc
  go_on_success rest (bad_access, w) e = cc

  abbrev pub after : ℕ → ℕ → World server → World server
  after k v w = (set_atom server l k v false w).1

  abbrev pub loop : ℕ → List ℕ → World server → Status × World server
  loop i vs w = set_atoms server l i vs false w

  pub loop_skip :
      (i v : ℕ) (vs : List ℕ) (w : World server)
      → place l i ≡ none
      → loop i (v ∷ vs) w ≡ loop (suc i) vs w
  unfolding set_atoms
  loop_skip i v vs w e = rw (e, set_atoms) refl

  loop_at :
      (i v k : ℕ) (vs : List ℕ) (w : World server)
      → place l i ≡ some k
      → loop i (v ∷ vs) w ≡ go_on server (λ w'. loop (suc i) vs w') (set_atom server l k v false w)
  unfolding set_atoms
  loop_at i v k vs w e = rw (e, set_atoms) refl

  pub loop_step :
      (i v k : ℕ) (vs : List ℕ) (w : World server)
      → place l i ≡ some k
      → (loop i (v ∷ vs) w).0 ≡ success
      → ((set_atom server l k v false w).0 ≡ success)
        × (loop i (v ∷ vs) w ≡ loop (suc i) vs (after k v w))
  loop_step i v k vs w e ok =
      let at_k = loop_at i v k vs w e in
      let (good, then_rest) =
        go_on_success (λ w'. loop (suc i) vs w') (set_atom server l k v false w)
          (sym (ap (λ (r : Status × World server). r.0) at_k) ∙ ok) in
      (good, at_k ∙ then_rest)
