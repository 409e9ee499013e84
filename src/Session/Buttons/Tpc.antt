-- ===== src/Session/Buttons/Tpc.antt =====
-- The rules for the buttons of a pen on a tablet PC, in `wcmSendButtons` of src/wcmCommon.c.
mod Tests
use xf86_input_wacom.Prelude.{
  ℕ, ◌+◌, ◌^◌, ◌≤◌, ◌≡◌, refl, Bool, true, false, ◌==◌, ◌⊎◌, inl, inr, arith, ◌<◌,
}
use xf86_input_wacom.Prelude.Bits.{has_mask}
use xf86_input_wacom.Session.Buttons.{ButtonPlan, tpc_plan, same}

-- The tip's press is to be sent: the loop begins with it, and it is down in the new buttons only.
abbrev pub SendsTip : ButtonPlan → Type 0
SendsTip p =
    (p.first_button ≡ 0) × (has_mask p.new_buttons 1 ≡ true) × (has_mask p.old_buttons 1 ≡ false)

-- On a tablet PC the press of the tip is sent only when no other button is down and the tip was up.
pub tpc_plan_tip :
    (buttons old : ℕ) → SendsTip (tpc_plan buttons old) → (buttons ≡ 1) × (has_mask old 1 ≡ false)
unfolding tpc_plan
tpc_plan_tip buttons old h = ground arith
