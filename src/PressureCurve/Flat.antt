-- ===== src/PressureCurve/Flat.antt =====
-- The first loop of `filterLine`, on a line that is wider than it is high: it returns, writes inside
-- the table only, and fills each column once.
use mathlib.Core.Path.{subst}
use xf86_input_wacom.Prelude.{
  ℕ, zero, suc, ◌*◌, ◌<◌, ◌≡◌, ◌∙◌, inl, inr, true, false, some, List, length, set, get_elem?,
  length-set, get_elem?-set_self, Bool-cases, arith,
}
use xf86_input_wacom.Prelude.Int.{ℤ, pos, leb_ℤ, ◌-ℤ◌, ◌+ℤ◌}
use xf86_input_wacom.PressureCurve.{Outcome, done, plot, trace}
use xf86_input_wacom.PressureCurve.Drawn.{Ahead, move, Drawn, Drawn-stop, Drawn-move, Ahead-here}
use xf86_input_wacom.PressureCurve.Trace.{
  Line, IsNear, IsOn, IsOn-IsNear, IsOn-both, IsOn-straight, minor_done, minor_room, step_of,
  move-step, trace_last, trace_both, trace_straight, at_last, not_at_last, move-lt,
}

plot_flat :
    (c : List ℤ) (i v : ℕ) → i < length c → plot false c (pos i) (pos v) ≡ some (set c i (pos v))
unfolding plot
plot_flat c i v h = ground arith

module _ (l : Line) (m1 n1 : ℕ) where
  abbrev pub flat : ℕ → ℤ → ℤ → ℤ → List ℤ → Outcome
  flat =
      trace false (pos (2 * l.long)) (pos (2 * l.short)) (step_of l.major_way) (step_of l.minor_way)
        (pos m1)

  -- What the first loop leaves, from a state with `rm` columns to go.
  pub record FlatDraws (major rm : ℕ) (c : List ℤ) (o : Outcome) : Type 0 where
    pub table : List ℤ
    pub returns : o ≡ done table
    pub drawn : Drawn (λ i v. IsNear l i v) l.major_way major rm c table
    pub ends : get_elem? table m1 ≡ some (pos n1)

  module _ (fuel rm rn k j major minor : ℕ) (d : ℤ) (c : List ℤ) where
    flat_on :
        {o : Outcome}
        → IsOn l m1 n1 major minor (suc rm) rn k j d
        → major < length c
        → flat (suc fuel) (pos major) (pos minor) d c ≡ o
        → FlatDraws (move l.major_way major) rm (set c major (pos minor)) o
        → FlatDraws major (suc rm) c (flat (suc fuel) (pos major) (pos minor) d c)
    flat_on i h e rest = record {
      table = rest.table;
      returns = e ∙ rest.returns;
      drawn =
          Drawn-move _ l.major_way major minor c m1 rm rest.table i.major_left h
            (IsOn-IsNear l m1 n1 major minor (suc rm) rn k j d i) rest.drawn;
      ends = rest.ends;
    }

    flat_straight_eq :
        IsOn l m1 n1 major minor (suc rm) rn k j d
        → major < length c
        → leb_ℤ (pos 0) d ≡ false
        → flat (suc fuel) (pos major) (pos minor) d c
          ≡ flat fuel
              (pos (move l.major_way major))
              (pos minor)
              (d +ℤ pos (2 * l.short))
              (set c major (pos minor))
    flat_straight_eq i h lt = rw (
      trace_straight _ _ _ _ _ _ fuel _ _ d c _ (plot_flat c major minor h)
          (not_at_last l.major_way major m1 rm i.major_left) lt,
      move-step l.major_way major m1 rm i.major_left,
    )

    flat_both_eq :
        IsOn l m1 n1 major minor (suc rm) (suc rn) k j d
        → major < length c
        → leb_ℤ (pos 0) d ≡ true
        → flat (suc fuel) (pos major) (pos minor) d c
          ≡ flat fuel
              (pos (move l.major_way major))
              (pos (move l.minor_way minor))
              (d -ℤ pos (2 * l.long) +ℤ pos (2 * l.short))
              (set c major (pos minor))
    flat_both_eq i h le = rw (
      trace_both _ _ _ _ _ _ fuel _ _ d c _ (plot_flat c major minor h)
          (not_at_last l.major_way major m1 rm i.major_left) le,
      move-step l.major_way major m1 rm i.major_left,
      move-step l.minor_way minor n1 rn i.minor_left,
    )

    flat_end :
        IsOn l m1 n1 major minor 0 rn k j d
        → major < length c
        → FlatDraws major 0 c (flat (suc fuel) (pos major) (pos minor) d c)
    flat_end i h = record {
      table = set c major (pos minor);
      returns =
          trace_last _ _ _ _ _ _ fuel _ _ d c _ (plot_flat c major minor h)
            (at_last l.major_way major m1 i.major_left);
      drawn =
          Drawn-stop _ l.major_way major minor c h (IsOn-IsNear l m1 n1 major minor 0 rn k j d i);
      ends = last_cell;
    }
      where
        at_end : minor ≡ n1
        at_end = Ahead-here l.minor_way minor n1 (
            subst (λ r. Ahead l.minor_way minor n1 r) (minor_done l m1 n1 major minor rn k j d i)
              i.minor_left)

        last_cell : get_elem? (set c major (pos minor)) m1 ≡ some (pos n1)
        last_cell =
            rw (← Ahead-here l.major_way major m1 i.major_left, ← at_end)
              (get_elem?-set_self c major (pos minor) h)

  -- The cells that are left stay inside of the table.
  abbrev pub Fits : ℕ → List ℤ → Type 0
  Fits major c = (major < length c) × (m1 < length c)

  Fits-move :
      (major rm : ℕ) (c : List ℤ) (v : ℤ)
      → Ahead l.major_way major m1 (suc rm)
      → Fits major c
      → Fits (move l.major_way major) (set c major v)
  Fits-move major rm c v a (h, h1) =
      rw (length-set c major v) (move-lt l.major_way major m1 rm (length c) a h h1, h1)

  pub flat_draws :
      (fuel rm rn k j major minor : ℕ) (d : ℤ) (c : List ℤ)
      → rm < fuel
      → IsOn l m1 n1 major minor rm rn k j d
      → Fits major c
      → FlatDraws major rm c (flat fuel (pos major) (pos minor) d c)
  flat_draws zero rm rn k j major minor d c f i h = absurd (omega arith)
  flat_draws (suc fuel) zero rn k j major minor d c f i h =
      flat_end fuel 0 rn k j major minor d c i h.0
  flat_draws (suc fuel) (suc rm) zero k j major minor d c f i h =
      elim (Bool-cases (leb_ℤ (pos 0) d)) [
        | inl le ↦ absurd (omega (arith, minor_room l m1 n1 major minor rm 0 k j d i le))
        | inr lt ↦
            flat_on fuel rm zero k j major minor d c i h.0
              (flat_straight_eq fuel rm zero k j major minor d c i h.0 lt)
              (flat_draws fuel rm zero (suc k) j (move l.major_way major) minor _
                (set c major (pos minor)) (omega arith)
                (IsOn-straight l m1 n1 major minor rm zero k j d i lt)
                (Fits-move major rm c (pos minor) i.major_left h))
      ]
  flat_draws (suc fuel) (suc rm) (suc rn) k j major minor d c f i h =
      elim (Bool-cases (leb_ℤ (pos 0) d)) [
        | inl le ↦
            flat_on fuel rm (suc rn) k j major minor d c i h.0
              (flat_both_eq fuel rm rn k j major minor d c i h.0 le)
              (flat_draws fuel rm rn (suc k) (suc j) (move l.major_way major)
                (move l.minor_way minor) _ (set c major (pos minor)) (omega arith)
                (IsOn-both l m1 n1 major minor rm rn k j d i le)
                (Fits-move major rm c (pos minor) i.major_left h))
        | inr lt ↦
            flat_on fuel rm (suc rn) k j major minor d c i h.0
              (flat_straight_eq fuel rm (suc rn) k j major minor d c i h.0 lt)
              (flat_draws fuel rm (suc rn) (suc k) j (move l.major_way major) minor _
                (set c major (pos minor)) (omega arith)
                (IsOn-straight l m1 n1 major minor rm (suc rn) k j d i lt)
                (Fits-move major rm c (pos minor) i.major_left h))
      ]
