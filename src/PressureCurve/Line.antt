-- ===== src/PressureCurve/Line.antt =====
-- `filterLine` as a whole: it returns, writes inside the table only, and fills every cell between
-- its ends with a value as near to the straight line as whole numbers allow.
use xf86_input_wacom.Prelude.{
  ℕ, suc, ◌*◌, ◌/◌, ◌≤◌, ◌<◌, ◌≡◌, ◌∙◌, inl, inr, true, false, some, List, length, set, get_elem?,
  length-set, get_elem?-set_self, get_elem?-set_ne, Bool-cases, ltb, arith,
}
use xf86_input_wacom.Prelude.Int.{ℤ, pos, ◌-ℤ◌}
use xf86_input_wacom.PressureCurve.{done, out_of_range, filter_line}
use xf86_input_wacom.PressureCurve.Drawn.{Ahead}
use xf86_input_wacom.PressureCurve.Trace.{trace_last}
use xf86_input_wacom.PressureCurve.Flat
use xf86_input_wacom.PressureCurve.Steep
use xf86_input_wacom.PressureCurve.Geometry.{
  gap, Between, IsOnLine, way, Ahead-Between, Between-Ahead, step_of-way, abs-gap, line_of,
  IsOn-start, flat-IsOnLine, steep-IsOnLine, point-IsOnLine, LineDrawn,
}

in_range : (n a : ℕ) → a ≤ n → out_of_range (pos n) (pos a) ≡ false
in_range n a h = ground arith

half_twice : (g : ℕ) → g * 2 / 2 ≡ g
half_twice g = omega arith

twice_comm : (g : ℕ) → g * 2 ≡ 2 * g
twice_comm g = omega arith

slope_test : (a b : ℕ) → b < a → ltb (b * 2) (a * 2) ≡ true
slope_test a b h = ground arith

steep_test : (a b : ℕ) → a ≤ b → ltb (b * 2) (a * 2) ≡ false
steep_test a b h = ground arith

gap-zero : (a b : ℕ) → gap a b ≡ 0 → a ≡ b
gap-zero a b h = omega arith

not-Ahead : (a b i : ℕ) → ¬ Between a b i → (p : ℕ) → Ahead (way a b) a i p → p ≤ gap a b → ⊥
not-Ahead a b i out p h le = out (Ahead-Between a b i p h le)

module _ (n_max x0 y0 x1 y1 : ℕ) (c : List ℤ) (hx0 : x0 ≤ n_max) (hy0 : y0 ≤ n_max)
    (hx1 : x1 ≤ n_max) (hy1 : y1 ≤ n_max) where
  filter_line-flat :
      gap y0 y1 < gap x0 x1
      → filter_line c (pos n_max) (pos x0) (pos y0) (pos x1) (pos y1)
        ≡ Flat.flat
            (line_of x0 y0 x1 y1)
            x1
            y1
            (suc n_max)
            (pos x0)
            (pos y0)
            (pos (2 * gap y0 y1) -ℤ pos (gap x0 x1))
            c
  unfolding filter_line
  filter_line-flat h = rw (
    in_range n_max x0 hx0,
    in_range n_max y0 hy0,
    in_range n_max x1 hx1,
    in_range n_max y1 hy1,
    step_of-way x0 x1,
    step_of-way y0 y1,
    abs-gap x0 x1,
    abs-gap y0 y1,
    slope_test (gap x0 x1) (gap y0 y1) h,
    half_twice (gap x0 x1),
    twice_comm (gap x0 x1),
    twice_comm (gap y0 y1),
  )

  filter_line-steep :
      gap x0 x1 ≤ gap y0 y1
      → filter_line c (pos n_max) (pos x0) (pos y0) (pos x1) (pos y1)
        ≡ Steep.steep
            (line_of y0 x0 y1 x1)
            y1
            x1
            (suc n_max)
            (pos y0)
            (pos x0)
            (pos (2 * gap x0 x1) -ℤ pos (gap y0 y1))
            c
  unfolding filter_line
  filter_line-steep h = rw (
    in_range n_max x0 hx0,
    in_range n_max y0 hy0,
    in_range n_max x1 hx1,
    in_range n_max y1 hy1,
    step_of-way x0 x1,
    step_of-way y0 y1,
    abs-gap x0 x1,
    abs-gap y0 y1,
    steep_test (gap x0 x1) (gap y0 y1) h,
    half_twice (gap y0 y1),
    twice_comm (gap x0 x1),
    twice_comm (gap y0 y1),
  )

  flat_line :
      gap y0 y1 < gap x0 x1
      → n_max < length c
      → (t : List ℤ) × (filter_line c (pos n_max) (pos x0) (pos y0) (pos x1) (pos y1) ≡ done t)
        × LineDrawn x0 y0 x1 y1 c t
  flat_line h fits = (
    f.table,
    filter_line-flat h ∙ f.returns,
    record {
      same_length = f.drawn.same_length;
      covered = λ i b.
          let (v, e, n) = f.drawn.covered i (gap x0 i) (Between-Ahead x0 x1 i b) (omega arith) in
          (v, e, flat-IsOnLine x0 y0 x1 y1 i v (omega arith) n);
      kept = λ i out. f.drawn.kept i (not-Ahead x0 x1 i out);
      ends = f.ends;
    },
  )
    where
      f : Flat.FlatDraws (line_of x0 y0 x1 y1) x1 y1 x0 (gap x0 x1) c (
          Flat.flat
            (line_of x0 y0 x1 y1)
            x1
            y1
            (suc n_max)
            (pos x0)
            (pos y0)
            (pos (2 * gap y0 y1) -ℤ pos (gap x0 x1))
            c)
      f =
          Flat.flat_draws (line_of x0 y0 x1 y1) x1 y1 (suc n_max) (gap x0 x1) (gap y0 y1) 0 0 x0 y0
            _ c (omega arith) (IsOn-start x0 y0 x1 y1 (omega arith) (omega arith))
            (omega arith, omega arith)

  steep_line :
      gap x0 x1 ≤ gap y0 y1
      → 0 < gap y0 y1
      → n_max < length c
      → (t : List ℤ) × (filter_line c (pos n_max) (pos x0) (pos y0) (pos x1) (pos y1) ≡ done t)
        × LineDrawn x0 y0 x1 y1 c t
  steep_line h p fits = (
    f.table,
    filter_line-steep h ∙ f.returns,
    record {
      same_length = f.drawn.same_length;
      covered = λ i b.
          let (v, e, n) = f.drawn.covered i (gap x0 i) (Between-Ahead x0 x1 i b) (omega arith) in
          (v, e, steep-IsOnLine x0 y0 x1 y1 i v h n);
      kept = λ i out. f.drawn.kept i (not-Ahead x0 x1 i out);
      ends = f.ends;
    },
  )
    where
      f : Steep.SteepDraws (line_of y0 x0 y1 x1) y1 x1 x0 (gap x0 x1) c (
          Steep.steep
            (line_of y0 x0 y1 x1)
            y1
            x1
            (suc n_max)
            (pos y0)
            (pos x0)
            (pos (2 * gap x0 x1) -ℤ pos (gap y0 y1))
            c)
      f =
          Steep.steep_draws (line_of y0 x0 y1 x1) y1 x1 (suc n_max) (gap y0 y1) (gap x0 x1) 0 0 y0
            x0 _ c (omega arith) (IsOn-start y0 x0 y1 x1 h p) (omega arith, omega arith)

  point :
      gap x0 x1 ≡ 0
      → gap y0 y1 ≡ 0
      → n_max < length c
      → (t : List ℤ) × (filter_line c (pos n_max) (pos x0) (pos y0) (pos x1) (pos y1) ≡ done t)
        × LineDrawn x0 y0 x1 y1 c t
  point ex ey fits = (
    set c x0 (pos y0),
    filter_line-steep (omega arith) ∙ stops,
    record {
      same_length = length-set c x0 (pos y0);
      covered = λ i b. one_cell i (omega (arith, b));
      kept = λ i out. get_elem?-set_ne c x0 i (pos y0) (λ e. out (omega (arith, e)));
      ends =
          rw (gap-zero x0 x1 ex, ← gap-zero y0 y1 ey)
            (get_elem?-set_self c x1 (pos y0) (omega arith));
    },
  )
    where
      stops :
          Steep.steep
            (line_of y0 x0 y1 x1)
            y1
            x1
            (suc n_max)
            (pos y0)
            (pos x0)
            (pos (2 * gap x0 x1) -ℤ pos (gap y0 y1))
            c
          ≡ done (set c x0 (pos y0))
      stops =
          trace_last _ _ _ _ _ _ n_max _ _ _ c _ (Steep.plot_steep c x0 y0 (omega arith))
            (ground (arith, gap-zero y0 y1 ey))

      one_cell :
          (i : ℕ)
          → i ≡ x0
          → (v : ℕ) × (get_elem? (set c x0 (pos y0)) i ≡ some (pos v)) × IsOnLine x0 y0 x1 y1 i v
      one_cell i e = (
        y0,
        rw e (get_elem?-set_self c x0 (pos y0) (omega arith)),
        point-IsOnLine x0 y0 x1 y1 i e ex ey,
      )

  -- For end points between 0 and n_max, and a table with a cell for each of these, `filterLine` returns
  -- without a write outside of the table. The table keeps its length; every cell between the ends holds a
  -- point of the line, to half a unit; the end holds its own value; every other cell is as before.
  pub filter_line_draws :
      n_max < length c
      → (t : List ℤ) × (filter_line c (pos n_max) (pos x0) (pos y0) (pos x1) (pos y1) ≡ done t)
        × LineDrawn x0 y0 x1 y1 c t
  filter_line_draws fits = elim (Bool-cases (ltb (gap y0 y1) (gap x0 x1))) [
    | inl wide ↦ flat_line (ground arith) fits
    | inr high ↦ elim (Bool-cases (ltb 0 (gap y0 y1))) [
      | inl long ↦ steep_line (ground arith) (ground arith) fits
      | inr one ↦ point (ground arith) (ground arith) fits
    ]
  ]
