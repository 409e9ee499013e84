-- ===== src/Config/Linking/Links.antt =====
-- Linking two devices of one tablet: `linkDevice` of src/wcmConfig.c.
use xf86_input_wacom.Prelude.{
  ℕ, ◌<◌, ◌≡◌, ◌≢◌, ◌⊎◌, refl, sym, ap, ◌∙◌, Bool, true, false, ◌&&◌, ◌||◌, none, some, length,
  length-set, arith, Bool-cases, inl, inr, get_or-set_self, get_or-set_ne,
}
use mathlib.Core.Path.{subst}
use mathlib.Core.Bool.{false≢true}
use xf86_input_wacom.Prelude.Bits.{has_mask}
use xf86_input_wacom.Config.Linking.{
  is_some, Devices, Port, port_of, common_of, no_port, update_common, on_both, linked_to,
  with_pentouch, is_touch, is_tablet, has_touch, put_touch, put_pentouch, link_device,
  is_sibling_device, pentouch,
}

-- Two devices with records of their own.
pub record Apart (i j : ℕ) (w : Devices) : Type 0 where
  pub different : port_of w i ≢ port_of w j
  pub first_there : port_of w i < length w.ports
  pub second_there : port_of w j < length w.ports

module _ (i j : ℕ) where
  common-on_both_first :
      (f : Port → Port) (w : Devices)
      → Apart i j w
      → common_of (on_both i j f w) i ≡ f (common_of w i)
  unfolding update_common
  common-on_both_first f w a =
      get_or-set_ne (update_common i f w).ports (port_of w j) (port_of w i) _ no_port
        (λ e. a.different (sym e))
      ∙ get_or-set_self w.ports (port_of w i) (f (common_of w i)) no_port a.first_there

  common-on_both_second :
      (f : Port → Port) (w : Devices)
      → Apart i j w
      → common_of (on_both i j f w) j ≡ f (common_of w j)
  unfolding update_common
  common-on_both_second f w a =
      let first = update_common i f w in
      get_or-set_self first.ports (port_of w j) (f (common_of first j)) no_port
        (omega (arith, a.second_there, length-set w.ports (port_of w i) (f (common_of w i))))
      ∙ ap f (get_or-set_ne w.ports (port_of w i) (port_of w j) _ no_port a.different)

  on_both-Apart : (f : Port → Port) (w : Devices) → Apart i j w → Apart i j (on_both i j f w)
  unfolding update_common
  on_both-Apart f w a =
      let first = update_common i f w in
      let once = length-set w.ports (port_of w i) (f (common_of w i)) in
      let twice = length-set first.ports (port_of w j) (f (common_of first j)) in
      record {
        different = a.different;
        first_there = omega (arith, a.first_there, once, twice);
        second_there = omega (arith, a.second_there, once, twice);
      }

  -- Both records after a change to both.
  pub record Both (f : Port → Port) (w w' : Devices) : Type 0 where
    pub first : common_of w' i ≡ f (common_of w i)
    pub second : common_of w' j ≡ f (common_of w j)
    pub apart : Apart i j w'

  pub on_both-Both : (f : Port → Port) (w : Devices) → Apart i j w → Both f w (on_both i j f w)
  on_both-Both f w a = record {
    first = common-on_both_first f w a;
    second = common-on_both_second f w a;
    apart = on_both-Apart f w a;
  }

  Both-then :
      (f h : Port → Port) (u v w : Devices) → Both f u v → Both h v w → Both (λ p. h (f p)) u w
  Both-then f h u v w p q = record {
    first = q.first ∙ ap h p.first;
    second = q.second ∙ ap h p.second;
    apart = q.apart;
  }

  -- Devices that are not linked, of tablets with one id.
  pub record AreFree (w : Devices) : Type 0 where
    pub apart : Apart i j w
    pub first_free : (common_of w i).touch_device ≡ none
    pub second_free : (common_of w j).touch_device ≡ none
    pub first_clear : has_mask (common_of w i).tablet_type pentouch ≡ false
    pub second_clear : has_mask (common_of w j).tablet_type pentouch ≡ false
    pub same_id : (common_of w j).tablet_id ≡ (common_of w i).tablet_id

  -- How the records of both changed by a link to `k`.
  abbrev pub LinkedBy : ℕ → Devices → Devices → Type 0
  LinkedBy k w w' =
      Both (linked_to (some k)) w w' ⊎ Both (λ p. with_pentouch (linked_to (some k) p)) w w'

  put_touch-cases :
      (w : Devices)
      → ((k : ℕ) × (is_touch w k ≡ true) × (put_touch i j w ≡ on_both i j (linked_to (some k)) w))
        ⊎ (put_touch i j w ≡ w)
  unfolding put_touch
  put_touch-cases w = elim (Bool-cases (is_touch w j)) [
    | inl second ↦ inl (j, second, rw (second, put_touch) refl)
    | inr not_second ↦ (elim (Bool-cases (is_touch w i)) [
      | inl first ↦ inl (i, first, rw (not_second, first, put_touch) refl)
      | inr neither ↦ inr (rw (not_second, neither, put_touch) refl)
    ])
  ]

  put_pentouch-LinkedBy :
      (k : ℕ) (w u : Devices) → Both (linked_to (some k)) w u → LinkedBy k w (put_pentouch i j u)
  unfolding put_pentouch
  put_pentouch-LinkedBy k w u b =
      elim (Bool-cases ((has_touch u i && is_tablet u i) || (has_touch u j && is_tablet u j))) [
        | inl tablet ↦ inr (
            simp tablet (
              Both-then (linked_to (some k)) with_pentouch w u (on_both i j with_pentouch u) b
                (on_both-Both with_pentouch u b.apart)))
        | inr neither ↦ inl (simp neither b)
      ]

  -- A link between the two: which of them is the touch device, and the records afterwards.
  pub record Link (w w' : Devices) : Type 0 where
    pub touch_device : ℕ
    pub touches : is_touch w touch_device ≡ true
    pub changed : LinkedBy touch_device w w'

  not_linked : (w w' : Devices) → ◌≡◌ {A = Devices × Bool} (w, false) (w', true) → ⊥
  not_linked w w' e = cc

  no_touch : (w : Devices) → AreFree w → has_touch (put_pentouch i j w) i ≡ true → ⊥
  unfolding put_pentouch
  no_touch w free h =
      let first : has_touch w i ≡ false = ap (λ t. is_some t) free.first_free in
      let second : has_touch w j ≡ false = ap (λ t. is_some t) free.second_free in
      let still : ◌≡◌ {A = Bool} false true = simp (first, second) at h in false≢true still

  abbrev put_both : Devices → Devices
  put_both w = put_pentouch i j (put_touch i j w)

  put_both-Link : (w : Devices) → AreFree w → has_touch (put_both w) i ≡ true → Link w (put_both w)
  put_both-Link w free h = elim (put_touch-cases w) [
    | inl (k, touches, e) ↦ record {
      touch_device = k;
      touches = touches;
      changed = put_pentouch-LinkedBy k w (put_touch i j w) (
          subst (λ u. Both (linked_to (some k)) w u) (sym e)
            (on_both-Both (linked_to (some k)) w free.apart));
    }
    | inr e ↦ absurd (no_touch w free (ap (λ u. has_touch (put_pentouch i j u) i) (sym e) ∙ h))
  ]

  -- A link that is made between two devices that are not linked joins both to one touch device, which is one of
  -- them.
  pub link_device-Link : (w w' : Devices) → AreFree w → link_device i j w ≡ (w', true) → Link w w'
  unfolding link_device
  link_device-Link w w' free h = elim (Bool-cases (is_sibling_device w i j false)) [
    | inl sibling ↦
        let free_second : has_touch w j ≡ false = ap (λ t. is_some t) free.second_free in
        let run : (put_both w, has_touch (put_both w) i) ≡ (w', true) =
          simp (sibling, free_second) at h in
        subst (λ u. Link w u) (ap (λ (t : Devices × Bool). t.0) run)
          (put_both-Link w free (ap (λ (t : Devices × Bool). t.1) run))
    | inr other ↦ absurd (not_linked w w' (simp other at h))
  ]

  pub Link-Apart : (w w' : Devices) → Link w w' → Apart i j w'
  Link-Apart w w' l = elim (l.changed) [ inl b ↦ b.apart | inr b ↦ b.apart ]
