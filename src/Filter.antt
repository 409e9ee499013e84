-- ===== src/Filter.antt =====
-- The noise filter of src/wcmFilter.c: a window of the last raw samples, and its average.
pub mod Window
pub mod Average
pub mod Coord
mod Tests
use xf86_input_wacom.Prelude.{
  ℕ, zero, suc, ◌+◌, ◌-◌, Bool, true, false, ◌&&◌, ◌||◌, List, [], ◌∷◌, set, get_or, take, ltb,
  ◌==◌, if◌then◌else◌,
}
use xf86_input_wacom.Prelude.Int.{ℤ, pos, ◌+ℤ◌, tdiv, ltb_ℤ}
use xf86_input_wacom.State.{
  DeviceState, FilterState, Channel, Common, stylus_id, eraser_id, handle_tilt,
}

-- `for (i = n - 1; i >= 0; i--) xs[i] = v`
pub fill : ℕ → ℤ → List ℤ → List ℤ
fill zero v xs = xs
fill (suc i) v xs = fill i v (set xs i v)

-- `for (i = n; i > 0; i--) xs[i] = xs[i - 1]`
pub shift : ℕ → List ℤ → List ℤ
shift zero xs = xs
shift (suc i) xs = shift i (set xs (suc i) (get_or xs i (pos 0)))

-- One array of the window under a new sample, the first time and later.
pub store_first : ℕ → ℤ → List ℤ → List ℤ
unfolding fill
store_first n v xs = fill n v xs

pub store_next : ℕ → ℤ → List ℤ → List ℤ
unfolding shift
store_next n v xs = set (shift (n - 1) xs) 0 v

-- Only the pens report a tilt.
abbrev pub filters_tilt : Common → DeviceState → Bool
filters_tilt c ds = handle_tilt c && (ds.device_type == stylus_id || ds.device_type == eraser_id)

-- `wcmResetSampleCounter`
unfoldable pub reset_sample_counter : Channel → Channel
reset_sample_counter ch = record ch {
  nsamples = 0;
  raw_filter = record (ch.raw_filter) { npoints = 0 };
}

-- `storeRawSample`
pub store_raw_sample : Common → FilterState → DeviceState → FilterState
store_raw_sample c fs ds =
    let n = c.raw_sample in
    let store = if fs.npoints == 0 then store_first n else store_next n in
    let tilt = filters_tilt c ds in
    record {
      npoints =
          if fs.npoints == 0 then 1 else if ltb fs.npoints n then fs.npoints + 1 else fs.npoints;
      xs = store ds.x fs.xs;
      ys = store ds.y fs.ys;
      tiltxs = if tilt then store ds.tiltx fs.tiltxs else fs.tiltxs;
      tiltys = if tilt then store ds.tilty fs.tiltys else fs.tiltys;
    }

abbrev pub sum : List ℤ → ℤ
sum [] = pos 0
sum (x ∷ xs) = x +ℤ sum xs

-- `wcmFilterAverage`
pub filter_average : List ℤ → ℕ → ℤ
filter_average samples n = tdiv (sum (take n samples)) (pos n)

abbrev pub clamp : ℤ → ℤ → ℤ → ℤ
clamp lo hi v = if ltb_ℤ hi v then hi else if ltb_ℤ v lo then lo else v

-- `wcmFilterCoord`
unfoldable pub filter_coord : Common → Channel → DeviceState → Channel × DeviceState
unfolding store_raw_sample filter_average
filter_coord c ch ds =
    let fs = store_raw_sample c ch.raw_filter ds in
    let n = c.raw_sample in
    let tilt = filters_tilt c ds in
    (
      record ch { raw_filter = fs },
      record ds {
        x = filter_average fs.xs n;
        y = filter_average fs.ys n;
        tiltx =
            if tilt then clamp c.tilt_min_x c.tilt_max_x (filter_average fs.tiltxs n) else ds.tiltx;
        tilty =
            if tilt then clamp c.tilt_min_y c.tilt_max_y (filter_average fs.tiltys n) else ds.tilty;
      },
    )
