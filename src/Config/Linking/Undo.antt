-- ===== src/Config/Linking/Undo.antt =====
-- Unlinking two devices undoes their link: `linkDevice` and `unlinkDevice` of src/wcmConfig.c.
use xf86_input_wacom.Prelude.{
  ℕ, ◌≡◌, refl, sym, ap, ◌∙◌, Bool, true, false, none, some, arith, inl, inr, ==_iff,
}
use xf86_input_wacom.Prelude.Bits.{has_mask}
use xf86_input_wacom.Config.Linking.{
  is_some, Devices, Port, common_of, on_both, linked_to, with_pentouch, unlinked, has_touch,
  link_device, unlink_device, pentouch,
}
use xf86_input_wacom.Config.Linking.Links.{
  Link-Apart, Both, AreFree, Link, link_device-Link, on_both-Both,
}

-- A record without a link, and without the mark of one.
record IsFree (p : Port) : Type 0 where
  free : p.touch_device ≡ none
  clear : has_mask p.tablet_type pentouch ≡ false

unlinked-linked_to : (k : ℕ) (p : Port) → IsFree p → unlinked (linked_to (some k) p) ≡ p
unlinked-linked_to k p f = ground (arith, f.free, f.clear)

unlinked-with_pentouch :
    (k : ℕ) (p : Port) → IsFree p → unlinked (with_pentouch (linked_to (some k) p)) ≡ p
unlinked-with_pentouch k p f = ground (arith, f.free, f.clear)

module _ (i j : ℕ) where
  -- What unlinking needs of two linked devices.
  record AreLinked (w w' : Devices) : Type 0 where
    touched : has_touch w' i ≡ true
    same_id : (common_of w' j).tablet_id ≡ (common_of w' i).tablet_id
    first : unlinked (common_of w' i) ≡ common_of w i
    second : unlinked (common_of w' j) ≡ common_of w j

  changed-AreLinked :
      (f : Port → Port) (w w' : Devices)
      → AreFree i j w
      → ((p : Port) → is_some (f p).touch_device ≡ true)
      → ((p : Port) → (f p).tablet_id ≡ p.tablet_id)
      → ((p : Port) → IsFree p → unlinked (f p) ≡ p)
      → Both i j f w w'
      → AreLinked w w'
  changed-AreLinked f w w' free some_touch keeps undo b = record {
    touched = ap (λ (p : Port). is_some p.touch_device) b.first ∙ some_touch (common_of w i);
    same_id =
        ap (λ (p : Port). p.tablet_id) b.second
        ∙ keeps (common_of w j)
        ∙ free.same_id
        ∙ sym (keeps (common_of w i))
        ∙ sym (ap (λ (p : Port). p.tablet_id) b.first);
    first =
        ap (λ p. unlinked p) b.first
        ∙ undo (common_of w i) (record { free = free.first_free; clear = free.first_clear });
    second =
        ap (λ p. unlinked p) b.second
        ∙ undo (common_of w j) (record { free = free.second_free; clear = free.second_clear });
  }

  Link-AreLinked : (w w' : Devices) → AreFree i j w → Link i j w w' → AreLinked w w'
  Link-AreLinked w w' free l = elim (l.changed) [
    | inl b ↦
        changed-AreLinked (linked_to (some l.touch_device)) w w' free (λ p. refl) (λ p. refl)
          (λ p f. unlinked-linked_to l.touch_device p f) b
    | inr b ↦
        changed-AreLinked (λ p. with_pentouch (linked_to (some l.touch_device) p)) w w' free
          (λ p. refl) (λ p. refl) (λ p f. unlinked-with_pentouch l.touch_device p f) b
  ]

  unlink_device-runs :
      (w w' : Devices) → AreLinked w w' → unlink_device i j w' ≡ (on_both i j unlinked w', true)
  unfolding unlink_device
  unlink_device-runs w w' a =
      let same = (==_iff (common_of w' j).tablet_id (common_of w' i).tablet_id).1 a.same_id in
      simp (a.touched, same)

  -- Two devices with records of their own, of tablets with one id and not linked: when a link is made between
  -- them, unlinking them succeeds and gives both their records back as they were.
  pub unlink_device_undoes :
      (w w' : Devices)
      → AreFree i j w
      → link_device i j w ≡ (w', true)
      → let (back, done) = unlink_device i j w' in
        (done ≡ true) × (common_of back i ≡ common_of w i) × (common_of back j ≡ common_of w j)
  unlink_device_undoes w w' free h =
      let l = link_device-Link i j w w' free h in
      let a = Link-AreLinked w w' free l in
      let b = on_both-Both i j unlinked w' (Link-Apart i j w w' l) in
      let run = unlink_device-runs w w' a in
      (
        ap (λ (t : Devices × Bool). t.1) run,
        ap (λ (t : Devices × Bool). common_of t.0 i) run ∙ b.first ∙ a.first,
        ap (λ (t : Devices × Bool). common_of t.0 j) run ∙ b.second ∙ a.second,
      )
