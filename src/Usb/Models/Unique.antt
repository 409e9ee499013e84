-- ===== src/Usb/Models/Unique.antt =====
-- Each tablet of the table gets its own row: the loop of `usbWcmInit` in src/wcmUSB.c, which does not stop at a match.
use xf86_input_wacom.Prelude.{
  ℕ, zero, suc, ◌≡◌, refl, Bool, true, not, ◌&&◌, Option, none, some, List, [], ◌∷◌, get_elem?,
  arith, Bool-cases, inl, inr,
}
use mathlib.Core.Path.{subst}
use xf86_input_wacom.Usb.Models.{ModelDesc, vendor_id, matches, find_model}
use xf86_input_wacom.Usb.Models.Descs.{model_descs}

-- No row matches what another one does.
abbrev none_matches : ModelDesc → List ModelDesc → Bool
none_matches r [] = true
none_matches r (q ∷ qs) = not (matches (vendor_id r.vendor) r.model_id q) && none_matches r qs

distinct : List ModelDesc → Bool
distinct [] = true
distinct (r ∷ rs) = none_matches r rs && distinct rs

model_descs-distinct : distinct model_descs ≡ true
unfolding distinct model_descs matches vendor_id
model_descs-distinct = refl

matches_self : (r : ModelDesc) → matches (vendor_id r.vendor) r.model_id r ≡ true
unfolding matches
matches_self r = ground arith

find_model-passes :
    (r : ModelDesc) (rs : List ModelDesc) (found : Option ModelDesc)
    → none_matches r rs ≡ true
    → find_model (vendor_id r.vendor) r.model_id rs found ≡ found
unfolding find_model
find_model-passes r [] found h = refl
find_model-passes r (q ∷ qs) found h =
    elim (Bool-cases (matches (vendor_id r.vendor) r.model_id q)) [
      | inl same ↦ absurd (ground arith)
      | inr other ↦ rw other (find_model-passes r qs found (ground arith))
    ]

find_model-here :
    (q : ModelDesc) (qs : List ModelDesc) (found : Option ModelDesc)
    → none_matches q qs ≡ true
    → find_model (vendor_id q.vendor) q.model_id (q ∷ qs) found ≡ some q
unfolding find_model
find_model-here q qs found h = rw (matches_self q) (find_model-passes q qs (some q) h)

same_row : (q r : ModelDesc) → ◌≡◌ {A = Option ModelDesc} (some q) (some r) → q ≡ r
same_row q r e = cc

find_model-finds :
    (rs : List ModelDesc) (i : ℕ) (r : ModelDesc) (found : Option ModelDesc)
    → distinct rs ≡ true
    → get_elem? rs i ≡ some r
    → find_model (vendor_id r.vendor) r.model_id rs found ≡ some r
unfolding distinct find_model
find_model-finds [] i r found d e = absurd (ground arith)
find_model-finds (q ∷ qs) zero r found d e =
    subst (λ t. find_model (vendor_id t.vendor) t.model_id (q ∷ qs) found ≡ some t) (same_row q r e)
      (find_model-here q qs found (ground arith))
find_model-finds (q ∷ qs) (suc i) r found d e = find_model-finds qs i r _ (ground arith) e

-- Whatever row of the table describes a tablet, the search by the row's vendor and product finds this row.
pub find_model_own :
    (i : ℕ) (r : ModelDesc)
    → get_elem? model_descs i ≡ some r
    → find_model (vendor_id r.vendor) r.model_id model_descs none ≡ some r
find_model_own i r e = find_model-finds model_descs i r none model_descs-distinct e
