-- ===== src/PressureCurve/Steep.antt =====
-- The second loop of `filterLine`, on a line that is at least as high as wide: it returns, writes
-- inside the table only, and the last value that it leaves in a column is near to the line.
use xf86_input_wacom.Prelude.{
  ℕ, zero, suc, ◌*◌, ◌<◌, ◌≡◌, ◌∙◌, inl, inr, true, false, some, List, length, set, get_elem?,
  length-set, get_elem?-set_self, Bool-cases, arith,
}
use xf86_input_wacom.Prelude.Int.{ℤ, pos, leb_ℤ, ◌-ℤ◌, ◌+ℤ◌}
use xf86_input_wacom.PressureCurve.{Outcome, done, plot, trace}
use xf86_input_wacom.PressureCurve.Drawn.{
  Ahead, move, Drawn, Drawn-stop, Drawn-stay, Drawn-move, Ahead-here,
}
use xf86_input_wacom.PressureCurve.Trace.{
  Line, IsNear, IsOn, IsOn-IsNear, IsOn-both, IsOn-straight, minor_done, minor_room, step_of,
  move-step, trace_last, trace_both, trace_straight, at_last, not_at_last, move-lt,
}

pub plot_steep :
    (c : List ℤ) (i v : ℕ) → i < length c → plot true c (pos v) (pos i) ≡ some (set c i (pos v))
unfolding plot
plot_steep c i v h = ground arith

module _ (l : Line) (m1 n1 : ℕ) where
  abbrev pub steep : ℕ → ℤ → ℤ → ℤ → List ℤ → Outcome
  steep =
      trace true (pos (2 * l.long)) (pos (2 * l.short)) (step_of l.major_way) (step_of l.minor_way)
        (pos m1)

  -- What the second loop leaves, from a state with `rn` columns to go.
  pub record SteepDraws (minor rn : ℕ) (c : List ℤ) (o : Outcome) : Type 0 where
    pub table : List ℤ
    pub returns : o ≡ done table
    pub drawn : Drawn (λ i v. IsNear l v i) l.minor_way minor rn c table
    pub ends : get_elem? table n1 ≡ some (pos m1)

  module _ (fuel rm rn k j major minor : ℕ) (d : ℤ) (c : List ℤ) where
    steep_on :
        {o : Outcome}
        → IsOn l m1 n1 major minor (suc rm) (suc rn) k j d
        → minor < length c
        → steep (suc fuel) (pos major) (pos minor) d c ≡ o
        → SteepDraws (move l.minor_way minor) rn (set c minor (pos major)) o
        → SteepDraws minor (suc rn) c (steep (suc fuel) (pos major) (pos minor) d c)
    steep_on i h e rest = record {
      table = rest.table;
      returns = e ∙ rest.returns;
      drawn =
          Drawn-move _ l.minor_way minor major c n1 rn rest.table i.minor_left h
            (IsOn-IsNear l m1 n1 major minor (suc rm) (suc rn) k j d i) rest.drawn;
      ends = rest.ends;
    }

    steep_in_column :
        {o : Outcome}
        → steep (suc fuel) (pos major) (pos minor) d c ≡ o
        → SteepDraws minor rn (set c minor (pos major)) o
        → SteepDraws minor rn c (steep (suc fuel) (pos major) (pos minor) d c)
    steep_in_column e rest = record {
      table = rest.table;
      returns = e ∙ rest.returns;
      drawn = Drawn-stay _ l.minor_way minor major c rn rest.table rest.drawn;
      ends = rest.ends;
    }

    steep_straight_eq :
        IsOn l m1 n1 major minor (suc rm) rn k j d
        → minor < length c
        → leb_ℤ (pos 0) d ≡ false
        → steep (suc fuel) (pos major) (pos minor) d c
          ≡ steep fuel
              (pos (move l.major_way major))
              (pos minor)
              (d +ℤ pos (2 * l.short))
              (set c minor (pos major))
    steep_straight_eq i h lt = rw (
      trace_straight _ _ _ _ _ _ fuel _ _ d c _ (plot_steep c minor major h)
          (not_at_last l.major_way major m1 rm i.major_left) lt,
      move-step l.major_way major m1 rm i.major_left,
    )

    steep_both_eq :
        IsOn l m1 n1 major minor (suc rm) (suc rn) k j d
        → minor < length c
        → leb_ℤ (pos 0) d ≡ true
        → steep (suc fuel) (pos major) (pos minor) d c
          ≡ steep fuel
              (pos (move l.major_way major))
              (pos (move l.minor_way minor))
              (d -ℤ pos (2 * l.long) +ℤ pos (2 * l.short))
              (set c minor (pos major))
    steep_both_eq i h le = rw (
      trace_both _ _ _ _ _ _ fuel _ _ d c _ (plot_steep c minor major h)
          (not_at_last l.major_way major m1 rm i.major_left) le,
      move-step l.major_way major m1 rm i.major_left,
      move-step l.minor_way minor n1 rn i.minor_left,
    )

    steep_end :
        IsOn l m1 n1 major minor 0 0 k j d
        → minor < length c
        → SteepDraws minor 0 c (steep (suc fuel) (pos major) (pos minor) d c)
    steep_end i h = record {
      table = set c minor (pos major);
      returns =
          trace_last _ _ _ _ _ _ fuel _ _ d c _ (plot_steep c minor major h)
            (at_last l.major_way major m1 i.major_left);
      drawn =
          Drawn-stop _ l.minor_way minor major c h (IsOn-IsNear l m1 n1 major minor 0 0 k j d i);
      ends =
          rw
            (
              ← Ahead-here l.minor_way minor n1 i.minor_left,
              ← Ahead-here l.major_way major m1 i.major_left,
            )
            (get_elem?-set_self c minor (pos major) h);
    }

  -- The columns that are left stay inside of the table.
  abbrev pub Fits : ℕ → List ℤ → Type 0
  Fits minor c = (minor < length c) × (n1 < length c)

  Fits-move :
      (minor rn : ℕ) (c : List ℤ) (v : ℤ)
      → Ahead l.minor_way minor n1 (suc rn)
      → Fits minor c
      → Fits (move l.minor_way minor) (set c minor v)
  Fits-move minor rn c v a (h, h1) =
      rw (length-set c minor v) (move-lt l.minor_way minor n1 rn (length c) a h h1, h1)

  Fits-stay : (minor : ℕ) (c : List ℤ) (v : ℤ) → Fits minor c → Fits minor (set c minor v)
  Fits-stay minor c v h = rw (length-set c minor v) h

  pub steep_draws :
      (fuel rm rn k j major minor : ℕ) (d : ℤ) (c : List ℤ)
      → rm < fuel
      → IsOn l m1 n1 major minor rm rn k j d
      → Fits minor c
      → SteepDraws minor rn c (steep fuel (pos major) (pos minor) d c)
  steep_draws zero rm rn k j major minor d c f i h = absurd (omega arith)
  steep_draws (suc fuel) zero zero k j major minor d c f i h =
      steep_end fuel 0 0 k j major minor d c i h.0
  steep_draws (suc fuel) zero (suc rn) k j major minor d c f i h =
      absurd (omega (arith, minor_done l m1 n1 major minor (suc rn) k j d i))
  steep_draws (suc fuel) (suc rm) zero k j major minor d c f i h =
      elim (Bool-cases (leb_ℤ (pos 0) d)) [
        | inl le ↦ absurd (omega (arith, minor_room l m1 n1 major minor rm 0 k j d i le))
        | inr lt ↦
            steep_in_column fuel rm zero k j major minor d c
              (steep_straight_eq fuel rm zero k j major minor d c i h.0 lt)
              (steep_draws fuel rm zero (suc k) j (move l.major_way major) minor _
                (set c minor (pos major)) (omega arith)
                (IsOn-straight l m1 n1 major minor rm zero k j d i lt)
                (Fits-stay minor c (pos major) h))
      ]
  steep_draws (suc fuel) (suc rm) (suc rn) k j major minor d c f i h =
      elim (Bool-cases (leb_ℤ (pos 0) d)) [
        | inl le ↦
            steep_on fuel rm rn k j major minor d c i h.0
              (steep_both_eq fuel rm rn k j major minor d c i h.0 le)
              (steep_draws fuel rm rn (suc k) (suc j) (move l.major_way major)
                (move l.minor_way minor) _ (set c minor (pos major)) (omega arith)
                (IsOn-both l m1 n1 major minor rm rn k j d i le)
                (Fits-move minor rn c (pos major) i.minor_left h))
        | inr lt ↦
            steep_in_column fuel rm (suc rn) k j major minor d c
              (steep_straight_eq fuel rm (suc rn) k j major minor d c i h.0 lt)
              (steep_draws fuel rm (suc rn) (suc k) j (move l.major_way major) minor _
                (set c minor (pos major)) (omega arith)
                (IsOn-straight l m1 n1 major minor rm (suc rn) k j d i lt)
                (Fits-stay minor c (pos major) h))
      ]
