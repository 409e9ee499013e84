-- ===== src/Life/References.antt =====
-- The references to a tablet's record, by `wcmRefCommon` and `wcmFreeCommon` of src/wcmCommon.c.
use xf86_input_wacom.Prelude.{ℕ, zero, suc, ◌≡◌, refl, sym, ap, ◌∙◌, some, arith}
use xf86_input_wacom.State.{Common}
use xf86_input_wacom.Life.{Shared, live, freed, new_common, ref_common, free_common}

-- What the holders of a record can do with it: `Reach n s` when `n` references are held and the record is
-- `s`. Only who holds a reference makes another one or gives one back.
pub data Reach : ℕ → Shared → Type 0 where
  made : Reach 1 new_common
  copied :
      {n : ℕ} {s s' : Shared}
      → Reach (suc n) s
      → ref_common (some s) ≡ some s'
      → Reach (suc (suc n)) s'
  dropped : {n : ℕ} {s s' : Shared} → Reach (suc n) s → free_common s ≡ some s' → Reach n s'

-- The record counts the references, and is given back with the last one.
abbrev pub IsCounted : ℕ → Shared → Type 0
IsCounted zero s = s ≡ freed
IsCounted (suc n) s = (c : Common) × (s ≡ live (suc n) c)

-- Both calls find the record.
abbrev pub IsUsable : ℕ → Shared → Type 0
IsUsable zero s = Unit
IsUsable (suc n) s =
    ((s' : Shared) × (ref_common (some s) ≡ some s')) × ((s' : Shared) × (free_common s ≡ some s'))

after_ref :
    (n : ℕ) (s' : Shared) (c : Common)
    → ref_common (some (live (suc n) c)) ≡ some s'
    → s' ≡ live (suc (suc n)) c
unfolding ref_common
after_ref n s' c e = ground arith

after_free :
    (n : ℕ) (s' : Shared) (c : Common) → free_common (live (suc n) c) ≡ some s' → IsCounted n s'
unfolding free_common
after_free zero s' c e = ground arith
after_free (suc n) s' c e = (c, ground arith)

references_right : (n : ℕ) (s : Shared) → Reach n s → IsCounted n s
references_right _ _ made = (_, refl)
references_right _ s' (copied {n = n} {s = s} r e) =
    let (c, same) = references_right (suc n) s r in
    (c, after_ref n s' c (sym (ap (λ (x : Shared). ref_common (some x)) same) ∙ e))
references_right _ s' (dropped {n = n} {s = s} r e) =
    let (c, same) = references_right (suc n) s r in
    after_free n s' c (sym (ap (λ (x : Shared). free_common x) same) ∙ e)

usable : (n : ℕ) (s : Shared) → IsCounted n s → IsUsable n s
unfolding ref_common free_common
usable zero s h = tt
usable (suc n) s (c, same) = rw same ((_, refl), (_, refl))

-- Whatever its holders do, one after the other: a record is there with its count right while a reference to it
-- is held, so that no call finds it given back, and it is given back with the last reference.
pub Reach-IsCounted : (n : ℕ) (s : Shared) → Reach n s → IsCounted n s × IsUsable n s
Reach-IsCounted n s r = (references_right n s r, usable n s (references_right n s r))
