-- ===== src/Session/Action/Balance.antt =====
-- A key that a button's action presses is up again once the button is released: `sendAction` of
-- src/wcmCommon.c, on a press and then on a release.
use xf86_input_wacom.Prelude.{
  ℕ, ◌≡◌, refl, ap, ◌∙◌, Bool, true, false, not, ◌&&◌, ◌||◌, List, [], ◌∷◌, take, ◌==◌,
  if◌then◌else◌, arith, Bool-cases, inl, inr, ==_iff,
}
use xf86_input_wacom.Prelude.Int.{pos, ◌+ℤ◌}
use xf86_input_wacom.State.{DeviceState, Action}
use xf86_input_wacom.Axes.{AxisData}
use xf86_input_wacom.Session.{Emit, keycode, Session, emit}
use xf86_input_wacom.Session.Action.{
  ac_code, is_press, ActionType, ac_key, ac_button_type, ac_type, count_presses, press_as,
  press_actions, release_as, release_actions, send_action,
}

-- Whether the key is down after the calls, of which the last is the first: what the last one on the key did.
unfoldable pub is_down : ℕ → List Emit → Bool
is_down k [] = false
is_down k (keycode n press ∷ calls) =
    let before = is_down k calls in if n == k then press else before
is_down k (e ∷ calls) = is_down k calls

abbrev is_key : ActionType → Bool
is_key ac_key = true
is_key t = false

-- No action is zero, and those with the code are all keys.
unfoldable pub keys_only : ℕ → List ℕ → Bool
keys_only k [] = true
keys_only k (a ∷ keys) =
    not (a == 0) && ((not (ac_code a == k) || is_key (ac_type a)) && keys_only k keys)

-- Whether the last action with the code presses, or what was before if there is none.
unfoldable last_press : ℕ → List ℕ → Bool → Bool
last_press k [] before = before
last_press k (a ∷ keys) before = last_press k keys (if ac_code a == k then is_press a else before)

press_as-is_down :
    (k : ℕ) (t : ActionType) (ds : DeviceState) (axes : AxisData) (a : ℕ) (s : Session)
    → (not (ac_code a == k) || is_key t) ≡ true
    → is_down k (press_as t ds axes a s).calls
      ≡ (if ac_code a == k then is_press a else is_down k s.calls)
unfolding press_as is_down emit
press_as-is_down k ac_key ds axes a s h = refl
press_as-is_down k ac_button_type ds axes a s h = ground arith
press_as-is_down k t ds axes a s h = ground arith

three_of : (x y z : Bool) → (x && (y && z)) ≡ true → (x ≡ true) × (y ≡ true) × (z ≡ true)
three_of x y z h = (ground arith, ground arith, ground arith)

press_actions-is_down :
    (k : ℕ) (ds : DeviceState) (axes : AxisData) (keys : List ℕ) (s : Session)
    → keys_only k keys ≡ true
    → is_down k (press_actions ds axes keys s).calls ≡ last_press k keys (is_down k s.calls)
unfolding press_actions keys_only last_press
press_actions-is_down k ds axes [] s h = refl
press_actions-is_down k ds axes (a ∷ keys) s h =
    let all =
      three_of (not (a == 0)) (not (ac_code a == k) || is_key (ac_type a)) (keys_only k keys) h in
    let nonzero : (a == 0) ≡ false = ground (arith, all.0) in
    rw nonzero (
      press_actions-is_down k ds axes keys (press_as (ac_type a) ds axes a s) all.2
      ∙ ap (λ (b : Bool). last_press k keys b) (press_as-is_down k (ac_type a) ds axes a s all.1))

release_as-keeps_up :
    (k : ℕ) (t : ActionType) (axes : AxisData) (a : ℕ) (keys : List ℕ) (s : Session)
    → is_down k s.calls ≡ false
    → is_down k (release_as t axes a keys s).calls ≡ false
unfolding release_as is_down emit
release_as-keeps_up k t axes a keys s h = ground arith

release_actions-keeps_up :
    (k : ℕ) (axes : AxisData) (keys : List ℕ) (s : Session)
    → is_down k s.calls ≡ false
    → is_down k (release_actions axes keys s).calls ≡ false
unfolding release_actions
release_actions-keeps_up k axes [] s h = h
release_actions-keeps_up k axes (a ∷ keys) s h =
    release_actions-keeps_up k axes keys (release_as (ac_type a) axes a (a ∷ keys) s)
      (release_as-keeps_up k (ac_type a) axes a (a ∷ keys) s h)

-- Where what was before decides, no action has the code.
last_press-unused :
    (k : ℕ) (keys : List ℕ)
    → last_press k keys true ≡ true
    → last_press k keys false ≡ false
    → count_presses k keys ≡ pos 0
unfolding last_press count_presses
last_press-unused k [] h1 h2 = refl
last_press-unused k (a ∷ keys) h1 h2 = elim (Bool-cases (ac_code a == k)) [
  | inl here ↦
      let presses : last_press k keys (is_press a) ≡ true = rw here at h1 in
      let releases : last_press k keys (is_press a) ≡ false = rw here at h2 in absurd (ground arith)
  | inr elsewhere ↦
      rw elsewhere (last_press-unused k keys (rw elsewhere at h1) (rw elsewhere at h2))
]

release_as-last :
    (k : ℕ) (axes : AxisData) (a : ℕ) (keys : List ℕ) (s : Session)
    → ac_code a ≡ k
    → is_press a ≡ true
    → count_presses k keys ≡ pos 0
    → is_down k (release_as ac_key axes a (a ∷ keys) s).calls ≡ false
unfolding release_as is_down emit count_presses ◌+ℤ◌
release_as-last k axes a keys s e p h =
    let same : (ac_code a == k) ≡ true = ground (arith, e) in
    let own : (ac_code a == ac_code a) ≡ true = ground arith in
    let count : count_presses (ac_code a) keys ≡ pos 0 =
      ap (λ (n : ℕ). count_presses n keys) e ∙ h in
    rw (p, own, count, same) refl

is_key-only : (t : ActionType) → is_key t ≡ true → t ≡ ac_key
is_key-only ac_key h = refl
is_key-only t h = absurd (ground arith)

-- A step after which no other uses the key's code, of a key that is left pressed.
last_step :
    (k : ℕ) (axes : AxisData) (a : ℕ) (keys : List ℕ) (s : Session)
    → (not (ac_code a == k) || is_key (ac_type a)) ≡ true
    → last_press k keys (if ac_code a == k then is_press a else false) ≡ true
    → last_press k keys false ≡ false
    → is_down k (release_as (ac_type a) axes a (a ∷ keys) s).calls ≡ false
last_step k axes a keys s h lp last = elim (Bool-cases (ac_code a == k)) [
  | inl here ↦ (elim (Bool-cases (is_press a)) [
    | inl presses ↦
        let typed = is_key-only (ac_type a) (rw here at h) in
        let unused = last_press-unused k keys (rw (here, presses) at lp) last in
        ap (λ (t : ActionType). is_down k (release_as t axes a (a ∷ keys) s).calls) typed
        ∙ release_as-last k axes a keys s ((==_iff (ac_code a) k).0 here) presses unused
    | inr releases ↦
        let l : last_press k keys false ≡ true = rw (here, releases) at lp in absurd (ground arith)
  ])
  | inr elsewhere ↦
      let l : last_press k keys false ≡ true = rw elsewhere at lp in absurd (ground arith)
]

release_actions-is_down :
    (k : ℕ) (axes : AxisData) (keys : List ℕ) (s : Session)
    → keys_only k keys ≡ true
    → last_press k keys false ≡ true
    → is_down k (release_actions axes keys s).calls ≡ false
unfolding release_actions keys_only last_press
release_actions-is_down k axes [] s h lp = absurd (ground arith)
release_actions-is_down k axes (a ∷ keys) s h lp =
    let all =
      three_of (not (a == 0)) (not (ac_code a == k) || is_key (ac_type a)) (keys_only k keys) h in
    let s1 = release_as (ac_type a) axes a (a ∷ keys) s in
    elim (Bool-cases (last_press k keys false)) [
      | inl later ↦ release_actions-is_down k axes keys s1 all.2 later
      | inr last ↦ release_actions-keeps_up k axes keys s1 (last_step k axes a keys s all.1 lp last)
    ]

-- Once a button is pressed and released, a key that was up before is up again, whatever keys its action presses
-- and releases, if the action has no zero among its steps and its steps on this key's code are all on keys.
pub send_action_balances :
    (k : ℕ) (ds ds' : DeviceState) (act : Action) (axes axes' : AxisData) (s : Session)
    → keys_only k (take act.nactions act.action) ≡ true
    → is_down k s.calls ≡ false
    → is_down k (send_action ds' false act axes' (send_action ds true act axes s)).calls ≡ false
unfolding send_action
send_action_balances k ds ds' act axes axes' s h up =
    let keys = take act.nactions act.action in
    let pressed = press_actions ds axes keys s in
    let down =
      press_actions-is_down k ds axes keys s h ∙ ap (λ (b : Bool). last_press k keys b) up in
    elim (Bool-cases (last_press k keys false)) [
      | inl l ↦ release_actions-is_down k axes' keys pressed h l
      | inr l ↦ release_actions-keeps_up k axes' keys pressed (down ∙ l)
    ]
