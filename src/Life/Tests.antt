-- ===== src/Life/Tests.antt =====
-- Two subdevices that share a record and leave.
use xf86_input_wacom.Prelude.{refl}
use xf86_input_wacom.Life.{live, freed, fresh_common, ref_common, free_common}
use xf86_input_wacom.Life.References.{
  Reach, made, copied, dropped, IsCounted, IsUsable, Reach-IsCounted,
}

two_leave : Reach 0 freed
unfolding ref_common free_common
two_leave = dropped (dropped (copied {s' = live 2 fresh_common} made refl) refl) refl

Reach-IsCounted_example : IsCounted 0 freed × IsUsable 0 freed
Reach-IsCounted_example = Reach-IsCounted 0 freed two_leave
