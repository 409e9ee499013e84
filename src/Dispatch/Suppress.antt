-- ===== src/Dispatch/Suppress.antt =====
-- `wcmCheckSuppress` of src/wcmCommon.c: whether a state changed enough to be sent.
pub mod Motion
use xf86_input_wacom.Prelude.{
  ℕ, ◌-◌, ◌≡◌, refl, Bool, true, false, not, ◌&&◌, ◌||◌, ltb, ◌==◌, ◌!=◌, if◌then◌else◌, arith,
}
use xf86_input_wacom.Prelude.Int.{ℤ, pos, abs, ◌-ℤ◌, ltb_ℤ, is_set, ◌==ℤ◌}
use xf86_input_wacom.State.{DeviceState, Common}

-- `enum WacomSuppressMode`
pub data Suppression : Type 0 where
  suppress_none suppress_all suppress_non_motion : Suppression

-- |a - b| > limit
abbrev pub beyond : ℤ → ℤ → ℤ → Bool
beyond limit a b = ltb_ℤ limit (pos (abs (a -ℤ b)))

-- A rotation wraps after 1800.
abbrev pub turned : ℤ → ℤ → ℤ → Bool
turned limit a b = beyond limit a b && ltb_ℤ limit (pos 1800 -ℤ pos (abs (a -ℤ b)))

-- Any of the changes, but of the position, that are never suppressed.
unfoldable pub changed : ℤ → DeviceState → DeviceState → Bool
changed suppress old new =
    not (old.proximity ==ℤ new.proximity)
    || (old.buttons != new.buttons
        || (old.keys != new.keys
            || (not (old.stripx ==ℤ new.stripx)
                || (not (old.stripy ==ℤ new.stripy)
                    || (beyond suppress old.tiltx new.tiltx
                        || (beyond suppress old.tilty new.tilty
                            || (beyond suppress old.pressure new.pressure
                                || (beyond suppress old.throttle new.throttle
                                    || (turned suppress old.rotation new.rotation
                                        || (beyond suppress old.abswheel new.abswheel
                                            || (beyond suppress old.abswheel2 new.abswheel2
                                                || (is_set new.relwheel
                                                    || is_set new.relwheel2))))))))))))

abbrev pub moved : ℤ → DeviceState → DeviceState → Bool
moved suppress old new = beyond suppress old.x new.x || beyond suppress old.y new.y

-- `wcmCheckSuppress`; a position that did not move enough becomes the old one.
unfoldable pub check_suppress : Common → DeviceState → DeviceState → Suppression × DeviceState
check_suppress c old new =
    if not (is_set new.proximity) && not (is_set old.proximity)
    then (suppress_all, new)
    else if moved c.suppress old new
    then (if changed c.suppress old new then suppress_none else suppress_non_motion, new)
    else (
      if changed c.suppress old new then suppress_none else suppress_all,
      record new { x = old.x; y = old.y },
    )
