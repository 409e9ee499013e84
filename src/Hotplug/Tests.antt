-- ===== src/Hotplug/Tests.antt =====
-- A tablet from udev with a stylus, an eraser and a pad.
use xf86_input_wacom.Prelude.{◌≡◌, ◌++◌, refl, false, inr, ◌||◌, ◌==◌, none, some, [], ◌∷◌}
use xf86_input_wacom.State.{Tool}
use xf86_input_wacom.Hotplug.{
  Claims, stylus, eraser, pad, key_number, udev, other_source, all_kinds, has_tool,
  need_auto_hotplug, hotplug_others,
}
use xf86_input_wacom.Hotplug.Covers.{claimed, plain, for_serials, auto_hotplug_covers}

abbrev tablet : Claims
tablet = record {
  keys = λ k. (key_number k == 0) || ((key_number k == 1) || (key_number k == 6));
  is_generic = false;
  source = udev;
}

three_types : claimed tablet all_kinds ≡ stylus ∷ eraser ∷ pad ∷ []
unfolding has_tool
three_types = refl

-- A stylus and an eraser with a number.
abbrev art_pen : Tool
art_pen = record { typeid = 9; serial = 77; enabled = false; device = none }

auto_hotplug_covers_example :
    let after = record tablet { source = other_source } in
    (need_auto_hotplug none tablet ≡ (after, some stylus))
    × ((hotplug_others (art_pen ∷ []) after).1
        ≡ plain (eraser ∷ pad ∷ []) ++ for_serials after (art_pen ∷ []))
auto_hotplug_covers_example =
    auto_hotplug_covers tablet stylus (eraser ∷ pad ∷ []) (art_pen ∷ []) (inr refl) three_types
