-- ===== src/Dispatch/Suppress/Motion.antt =====
-- What `wcmCheckSuppress` never suppresses, and how far it can hold the pointer back.
use xf86_input_wacom.Prelude.{◌≡◌, ◌≢◌, ◌⊎◌, inl, inr, true, false, not, ◌&&◌, Bool-cases, arith}
use xf86_input_wacom.Prelude.Int.{ℤ, pos, abs, ◌-ℤ◌, ◌≤ℤ◌, is_set, ◌==ℤ◌}
use xf86_input_wacom.State.{DeviceState, Common}
use xf86_input_wacom.Dispatch.Suppress.{suppress_none, changed, moved, beyond, check_suppress}

-- The news that a state has by itself, against the old one.
abbrev pub HasNews : DeviceState → DeviceState → Type 0
HasNews old new =
    (not (old.proximity ==ℤ new.proximity) ≡ true)
    ⊎ (old.buttons ≢ new.buttons)
    ⊎ (old.keys ≢ new.keys)
    ⊎ (is_set new.relwheel ≡ true)
    ⊎ (is_set new.relwheel2 ≡ true)

abbrev pub InReach : DeviceState → DeviceState → Type 0
InReach old new = (is_set new.proximity ≡ true) ⊎ (is_set old.proximity ≡ true)

-- While the tool is or was in proximity, the check for suppression holds back nothing of a state that changes the
-- proximity, the buttons or the keys, or turns a relative wheel. What comes after the check may still drop it.
pub check_suppress_news :
    (c : Common) (old new : DeviceState)
    → InReach old new
    → HasNews old new
    → (check_suppress c old new).0 ≡ suppress_none
unfolding check_suppress changed
check_suppress_news c old new r n = ground arith

near_self : (limit a : ℤ) → pos 0 ≤ℤ limit → pos (abs (a -ℤ a)) ≤ℤ limit
unfolding ◌-ℤ◌
near_self limit a h = ground arith

not_beyond : (limit a b : ℤ) → beyond limit a b ≡ false → pos (abs (a -ℤ b)) ≤ℤ limit
not_beyond limit a b h = ground arith

-- For a limit that is not negative, the position that is kept is at most the limit away from the new one,
-- in both coordinates.
pub check_suppress_near :
    (c : Common) (old new : DeviceState)
    → pos 0 ≤ℤ c.suppress
    → (pos (abs ((check_suppress c old new).1.x -ℤ new.x)) ≤ℤ c.suppress)
      × (pos (abs ((check_suppress c old new).1.y -ℤ new.y)) ≤ℤ c.suppress)
unfolding check_suppress
check_suppress_near c old new h =
    elim (Bool-cases (not (is_set new.proximity) && not (is_set old.proximity))) [
      | inl away ↦ rw away (near_self c.suppress new.x h, near_self c.suppress new.y h)
      | inr reach ↦ elim (Bool-cases (moved c.suppress old new)) [
        | inl far ↦ rw (reach, far) (near_self c.suppress new.x h, near_self c.suppress new.y h)
        | inr held ↦
            rw (reach, held)
              (
                not_beyond c.suppress old.x new.x (ground arith),
                not_beyond c.suppress old.y new.y (ground arith),
              )
      ]
    ]
