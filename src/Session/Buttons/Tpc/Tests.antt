-- ===== src/Session/Buttons/Tpc/Tests.antt =====
-- The tip of a pen goes down alone.
use xf86_input_wacom.Prelude.{ℕ, ◌≡◌, refl, false}
use xf86_input_wacom.Prelude.Bits.{has_mask}
use xf86_input_wacom.Session.Buttons.{tpc_plan}
use xf86_input_wacom.Session.Buttons.Tpc.{SendsTip, tpc_plan_tip}

abbrev tip : ℕ
tip = 1

alone : SendsTip (tpc_plan tip 0)
unfolding tpc_plan
alone = (refl, refl, refl)

tpc_plan_tip_example : (tip ≡ 1) × (has_mask 0 1 ≡ false)
tpc_plan_tip_example = tpc_plan_tip tip 0 alone
