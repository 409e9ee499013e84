-- ===== src/Properties/Loop.antt =====
-- What the loop of `wcmSetActionsProperty`, of src/x11/xf86WacomProperties.c, leaves in the list of handlers.
use xf86_input_wacom.Prelude.{
  ℕ, suc, ◌+◌, ◌-◌, ◌≤◌, ◌<◌, ◌≡◌, ◌≢◌, refl, sym, ap, ◌∙◌, none, some, List, [], ◌∷◌, get_or, set,
  length, arith, length-set, get_or-set_self, get_or-set_ne, Option-cases, inl, inr,
}
use native.Mathlib.Decide.{dec_lt}
use xf86_input_wacom.Properties.Steps.{
  place-injective, handlers-set_atom, nbuttons-set_atom, loop_step, loop_skip, device_of, after,
  loop, handler_of,
}
use xf86_input_wacom.State.{Device}
use xf86_input_wacom.Properties.{Status, success}
use xf86_input_wacom.Properties.Lists.{Server, ListProperty, place, handlers, set_atoms, World}

module _ (server : Server) (l : ListProperty) where
  abbrev end_device : ℕ → List ℕ → World server → Device
  end_device i vs w = device_of server l (loop server l i vs w)

  end_device-skip :
      (i v : ℕ) (vs : List ℕ) (w : World server)
      → place l i ≡ none
      → end_device i (v ∷ vs) w ≡ end_device (suc i) vs w
  end_device-skip i v vs w e =
      ap (λ (r : Status × World server). device_of server l r) (loop_skip server l i v vs w e)

  end_device-step :
      (i v k : ℕ) (vs : List ℕ) (w : World server)
      → place l i ≡ some k
      → (loop server l i (v ∷ vs) w).0 ≡ success
      → end_device i (v ∷ vs) w ≡ end_device (suc i) vs (after server l k v w)
  end_device-step i v k vs w e ok =
      ap (λ (r : Status × World server). device_of server l r)
        ((loop_step server l i v k vs w e ok).1)

  -- The statuses of the rest of the loop.
  rest_skip :
      (i v : ℕ) (vs : List ℕ) (w : World server)
      → place l i ≡ none
      → (loop server l i (v ∷ vs) w).0 ≡ success
      → (loop server l (suc i) vs w).0 ≡ success
  rest_skip i v vs w e ok =
      sym (ap (λ (r : Status × World server). r.0) (loop_skip server l i v vs w e)) ∙ ok

  rest_step :
      (i v k : ℕ) (vs : List ℕ) (w : World server)
      → place l i ≡ some k
      → (loop server l i (v ∷ vs) w).0 ≡ success
      → (loop server l (suc i) vs (after server l k v w)).0 ≡ success
  rest_step i v k vs w e ok =
      sym (ap (λ (r : Status × World server). r.0) ((loop_step server l i v k vs w e ok).1)) ∙ ok

  handlers-after :
      (i v k : ℕ) (vs : List ℕ) (w : World server)
      → place l i ≡ some k
      → (loop server l i (v ∷ vs) w).0 ≡ success
      → handlers l (after server l k v w).0 ≡ set (handlers l w.0) k (handler_of server l k v)
  handlers-after i v k vs w e ok =
      handlers-set_atom server l k v w ((loop_step server l i v k vs w e ok).0)

  -- A handler at a place that the loop does not come to.
  loop_keeps :
      (i : ℕ) (vs : List ℕ) (w : World server) (k : ℕ)
      → ((j : ℕ) → i ≤ j → place l j ≢ some k)
      → (loop server l i vs w).0 ≡ success
      → get_or (handlers l (end_device i vs w)) k 0 ≡ get_or (handlers l w.0) k 0
  unfolding set_atoms
  loop_keeps i [] w k never ok = refl
  loop_keeps i (v ∷ vs) w k never ok = elim (Option-cases (place l i)) [
    | inl e ↦
        ap (λ (d : Device). get_or (handlers l d) k 0) (end_device-skip i v vs w e)
        ∙ loop_keeps (suc i) vs w k (λ j le. never j (omega arith)) (rest_skip i v vs w e ok)
    | inr (m, e) ↦
        ap (λ (d : Device). get_or (handlers l d) k 0) (end_device-step i v m vs w e ok)
        ∙ loop_keeps (suc i) vs (after server l m v w) k (λ j le. never j (omega arith))
            (rest_step i v m vs w e ok)
        ∙ ap (λ (hs : List ℕ). get_or hs k 0) (handlers-after i v m vs w e ok)
        ∙ get_or-set_ne (handlers l w.0) m k (handler_of server l m v) 0
            (λ same. never i (omega arith) (e ∙ ap (λ (n : ℕ). some n) same))
  ]

  pub loop_nbuttons :
      (i : ℕ) (vs : List ℕ) (w : World server)
      → (loop server l i vs w).0 ≡ success
      → (end_device i vs w).nbuttons ≡ w.0.nbuttons
  unfolding set_atoms
  loop_nbuttons i [] w ok = refl
  loop_nbuttons i (v ∷ vs) w ok = elim (Option-cases (place l i)) [
    | inl e ↦
        ap (λ (d : Device). d.nbuttons) (end_device-skip i v vs w e)
        ∙ loop_nbuttons (suc i) vs w (rest_skip i v vs w e ok)
    | inr (m, e) ↦
        ap (λ (d : Device). d.nbuttons) (end_device-step i v m vs w e ok)
        ∙ loop_nbuttons (suc i) vs (after server l m v w) (rest_step i v m vs w e ok)
        ∙ nbuttons-set_atom server l m v w
  ]

  get_or_later :
      (i m v : ℕ) (vs : List ℕ) → i < m → get_or vs (m - suc i) 0 ≡ get_or (v ∷ vs) (m - i) 0
  get_or_later i m v vs h = let one_more : m - i ≡ suc (m - suc i) = omega arith in rw one_more refl

  get_or_now : (i m v : ℕ) (vs : List ℕ) → m ≡ i → v ≡ get_or (v ∷ vs) (m - i) 0
  get_or_now i m v vs h = let none_more : m - i ≡ 0 = omega arith in rw none_more refl

  length-after :
      (i v k : ℕ) (vs : List ℕ) (w : World server)
      → place l i ≡ some k
      → (loop server l i (v ∷ vs) w).0 ≡ success
      → length (handlers l (after server l k v w).0) ≡ length (handlers l w.0)
  length-after i v k vs w e ok =
      ap (λ (hs : List ℕ). length hs) (handlers-after i v k vs w e ok)
      ∙ length-set (handlers l w.0) k (handler_of server l k v)

  -- The handler of the atom that comes first.
  loop_sets_first :
      (i v : ℕ) (vs : List ℕ) (w : World server) (k : ℕ)
      → place l i ≡ some k
      → k < length (handlers l w.0)
      → (loop server l i (v ∷ vs) w).0 ≡ success
      → get_or (handlers l (end_device i (v ∷ vs) w)) k 0 ≡ handler_of server l k v
  loop_sets_first i v vs w k e room ok =
      ap (λ (d : Device). get_or (handlers l d) k 0) (end_device-step i v k vs w e ok)
      ∙ loop_keeps (suc i) vs (after server l k v w) k
          (λ j le same. absurd (omega (arith, place-injective l i j k e same)))
          (rest_step i v k vs w e ok)
      ∙ ap (λ (hs : List ℕ). get_or hs k 0) (handlers-after i v k vs w e ok)
      ∙ get_or-set_self (handlers l w.0) k (handler_of server l k v) 0 room

  -- A handler at the place of the `m`th atom.
  pub loop_sets :
      (i : ℕ) (vs : List ℕ) (w : World server) (m k : ℕ)
      → i ≤ m
      → m < i + length vs
      → place l m ≡ some k
      → k < length (handlers l w.0)
      → (loop server l i vs w).0 ≡ success
      → get_or (handlers l (end_device i vs w)) k 0 ≡ handler_of server l k (get_or vs (m - i) 0)
  loop_sets i [] w m k le lt e room ok = absurd (omega arith)
  loop_sets i (v ∷ vs) w m k le lt e room ok = elim (dec_lt i m) [
    | yes later ↦
        (elim (Option-cases (place l i)) [
          | inl none_here ↦
              ap (λ (d : Device). get_or (handlers l d) k 0) (end_device-skip i v vs w none_here)
              ∙ loop_sets (suc i) vs w m k later (omega arith) e room
                  (rest_skip i v vs w none_here ok)
          | inr (n, here) ↦
              ap (λ (d : Device). get_or (handlers l d) k 0) (end_device-step i v n vs w here ok)
              ∙ loop_sets (suc i) vs (after server l n v w) m k later (omega arith) e
                  (omega (arith, length-after i v n vs w here ok)) (rest_step i v n vs w here ok)
        ])
        ∙ ap (λ (a : ℕ). handler_of server l k a) (get_or_later i m v vs later)
    | no now ↦
        let same : m ≡ i = omega arith in
        loop_sets_first i v vs w k (sym (ap (λ (n : ℕ). place l n) same) ∙ e) room ok
        ∙ ap (λ (a : ℕ). handler_of server l k a) (get_or_now i m v vs same)
  ]
