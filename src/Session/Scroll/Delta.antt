-- ===== src/Session/Scroll/Delta.antt =====
-- The change of a scrolling axis, `getScrollDelta`.
use xf86_input_wacom.Prelude.{ℕ, ◌+◌, ◌*◌, ◌≤◌, ◌<◌, ◌≡◌, refl, ◌⊎◌, Bool, true, false, arith}
use xf86_input_wacom.Prelude.Int.{ℤ, pos, abs, neg, ◌+ℤ◌, ◌-ℤ◌}
use xf86_input_wacom.Session.Scroll.{get_scroll_delta}

-- `delta` leads from `old` to `current`, directly or once round an axis of `wrap` + 1 positions.
abbrev pub LeadsTo : ℕ → ℕ → ℕ → ℤ → Type 0
LeadsTo wrap old current delta =
    (pos old +ℤ delta ≡ pos current)
    ⊎ (pos old +ℤ delta ≡ pos current +ℤ pos (wrap + 1))
    ⊎ (pos old +ℤ delta +ℤ pos (wrap + 1) ≡ pos current)

-- On an axis that wraps after `wrap` > 0, for two positions up to `wrap`, the change without flags leads
-- from the old position to the current one, and it is at most half of the way round.
pub get_scroll_delta_wraps :
    (current old wrap : ℕ)
    → 0 < wrap
    → current ≤ wrap
    → old ≤ wrap
    → LeadsTo wrap old current (get_scroll_delta (pos current) (pos old) (pos wrap) false false)
      × (2 * abs (get_scroll_delta (pos current) (pos old) (pos wrap) false false) ≤ wrap + 1)
unfolding get_scroll_delta ◌+ℤ◌ ◌-ℤ◌
get_scroll_delta_wraps current old wrap h hc ho = ground arith

-- Inverting an axis that does not wrap negates the change.
pub get_scroll_delta_inverts :
    (current old : ℤ) (bitwise : Bool)
    → get_scroll_delta current old (pos 0) true bitwise
      ≡ neg (get_scroll_delta current old (pos 0) false bitwise)
unfolding get_scroll_delta
get_scroll_delta_inverts current old true = refl
get_scroll_delta_inverts current old false = refl
