-- ===== src/Filter/Coord.antt =====
-- `wcmFilterCoord` on a whole state: the window stays well formed, and the filtered values lie
-- among the samples.
use xf86_input_wacom.Prelude.{
  ℕ, ◌-◌, ◌≤◌, ◌<◌, ◌≡◌, true, List, All, take, length, length-take, length-replicate, inl, inr,
  Bool-cases, ◌==◌, if◌then◌else◌, arith,
}
use xf86_input_wacom.Prelude.Int.{ℤ, ◌≤ℤ◌, eq_of_parts}
use xf86_input_wacom.State.{DeviceState, FilterState, Channel, Common}
use xf86_input_wacom.Filter.{
  store_first, store_next, store_raw_sample, filter_average, filter_coord, filters_tilt,
}
use xf86_input_wacom.Filter.Window.{
  store_first-window, store_next-window, length-store_first, length-store_next,
}
use xf86_input_wacom.Filter.Average.{Within, filter_average_bounds, All-replicate}

-- The arrays have `MAX_SAMPLES` places, and the window is not empty and fits in.
pub record IsWindow (c : Common) (fs : FilterState) : Type 0 where
  pub some_sample : 0 < c.raw_sample
  pub fits : c.raw_sample ≤ 20
  pub xs_length : length fs.xs ≡ 20
  pub ys_length : length fs.ys ≡ 20
  pub tiltxs_length : length fs.tiltxs ≡ 20
  pub tiltys_length : length fs.tiltys ≡ 20
  pub counted : fs.npoints ≤ c.raw_sample

-- Storing a sample in a window that is well formed keeps the arrays' sizes and the count of samples in
-- bounds, and at least one sample is counted.
pub store_raw_sample-IsWindow :
    (c : Common) (fs : FilterState) (ds : DeviceState)
    → IsWindow c fs
    → IsWindow c (store_raw_sample c fs ds) × (0 < (store_raw_sample c fs ds).npoints)
unfolding store_raw_sample
store_raw_sample-IsWindow c fs ds w =
    let n = c.raw_sample in
    ground (
      arith,
      length-store_first n ds.x fs.xs,
      length-store_first n ds.y fs.ys,
      length-store_first n ds.tiltx fs.tiltxs,
      length-store_first n ds.tilty fs.tiltys,
      length-store_next n ds.x fs.xs,
      length-store_next n ds.y fs.ys,
      length-store_next n ds.tiltx fs.tiltxs,
      length-store_next n ds.tilty fs.tiltys,
    )

-- One array under a new sample.
abbrev stored : ℕ → ℕ → ℤ → List ℤ → List ℤ
stored npoints n = if npoints == 0 then store_first n else store_next n

module _ (lo hi v : ℤ) (n : ℕ) (xs : List ℤ) (p : 0 < n) (fits : n ≤ length xs) where
  average_first : Within lo hi v → Within lo hi (filter_average (store_first n v xs) n)
  average_first h =
      filter_average_bounds lo hi (store_first n v xs) n p
        (rw (store_first-window n v xs fits) (length-replicate n v))
        (rw (store_first-window n v xs fits) (All-replicate lo hi v n h))

  average_next :
      Within lo hi v
      → All (Within lo hi) (take (n - 1) xs)
      → Within lo hi (filter_average (store_next n v xs) n)
  average_next h rest =
      filter_average_bounds lo hi (store_next n v xs) n p
        (rw (store_next-window n v xs p fits) (omega (arith, length-take (n - 1) xs)))
        (rw (store_next-window n v xs p fits) (h, rest))

  average_stored :
      (npoints : ℕ)
      → Within lo hi v
      → All (Within lo hi) (take (n - 1) xs)
      → Within lo hi (filter_average (stored npoints n v xs) n)
  average_stored npoints h rest = elim (Bool-cases (npoints == 0)) [
    | inl first ↦ rw first (average_first h)
    | inr later ↦ rw later (average_next h rest)
  ]

average_same :
    (v : ℤ) (n : ℕ) (xs : List ℤ)
    → 0 < n
    → n ≤ length xs
    → filter_average (store_first n v xs) n ≡ v
average_same v n xs p fits =
    let (a, b) = average_first v v v n xs p fits (omega arith, omega arith) in
    eq_of_parts _ _ (omega arith)

-- With a window that is well formed and holds no sample, as after a reset, a sample passes the filter
-- unchanged in both coordinates.
pub filter_coord_first :
    (c : Common) (ch : Channel) (ds : DeviceState)
    → IsWindow c ch.raw_filter
    → ch.raw_filter.npoints ≡ 0
    → ((filter_coord c ch ds).1.x ≡ ds.x) × ((filter_coord c ch ds).1.y ≡ ds.y)
unfolding filter_coord
filter_coord_first c ch ds w e = (
  rw e (average_same ds.x c.raw_sample ch.raw_filter.xs w.some_sample (omega arith)),
  rw e (average_same ds.y c.raw_sample ch.raw_filter.ys w.some_sample (omega arith)),
)

-- With a window that is well formed, the filtered coordinates lie in any bounds that hold for the new
-- sample and for the samples that stay in the window.
pub filter_coord_bounds :
    (x_lo x_hi y_lo y_hi : ℤ) (c : Common) (ch : Channel) (ds : DeviceState)
    → IsWindow c ch.raw_filter
    → Within x_lo x_hi ds.x
    → All (Within x_lo x_hi) (take (c.raw_sample - 1) ch.raw_filter.xs)
    → Within y_lo y_hi ds.y
    → All (Within y_lo y_hi) (take (c.raw_sample - 1) ch.raw_filter.ys)
    → Within x_lo x_hi (filter_coord c ch ds).1.x × Within y_lo y_hi (filter_coord c ch ds).1.y
unfolding filter_coord
filter_coord_bounds x_lo x_hi y_lo y_hi c ch ds w hx restx hy resty =
    let np = ch.raw_filter.npoints in
    (
      average_stored x_lo x_hi ds.x c.raw_sample ch.raw_filter.xs w.some_sample (omega arith) np hx
          restx,
      average_stored y_lo y_hi ds.y c.raw_sample ch.raw_filter.ys w.some_sample (omega arith) np hy
          resty,
    )

-- For a state whose tilt is filtered, a pen's on a tablet with tilt, the tilt comes out inside the
-- tablet's tilt range, if that is not inverted.
pub filter_coord_tilt :
    (c : Common) (ch : Channel) (ds : DeviceState)
    → c.tilt_min_x ≤ℤ c.tilt_max_x
    → c.tilt_min_y ≤ℤ c.tilt_max_y
    → filters_tilt c ds ≡ true
    → Within c.tilt_min_x c.tilt_max_x (filter_coord c ch ds).1.tiltx
      × Within c.tilt_min_y c.tilt_max_y (filter_coord c ch ds).1.tilty
unfolding filter_coord
filter_coord_tilt c ch ds hx hy t = rw t (ground arith)
