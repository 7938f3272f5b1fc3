-- ===== src/Cache/Store/Kept.antt =====
-- What the steps of `add_cache` on a single entry keep: its books and its name.
use tor_android_service_arch.Cache.Cent.{
  Sizes, nrrmu, nrrext, SetFlags, RrSet, Slots, Body, neg, rr, Cent, slot, rrarr_len, make_positive,
  ensure, add_cent_rrset_by_index, del_cent_rrset_by_index,
}
use tor_android_service_arch.Cache.Cent.Accounts.{
  Accounted, Shaped, slots_size, slots_count, body_size, body_count, some-HasSlot, put-Accounted,
  slot-put_body,
}
use tor_android_service_arch.Cache.Cent.Conflict.{
  conflicts, scan_conflicts, remove_conflicts, replace_conflicts, weigh, cr_check_add,
  remove_conflicts-Accounted, remove_conflicts-slot,
}
use tor_android_service_arch.Cache.Cent.Copy.{forget_slots, forget_body, forget}
use tor_android_service_arch.Cache.Cent.Ttl.{Global, adjust_dom_ttl, set_neg_ttl, clamp_ttl}
use tor_android_service_arch.Cache.Store.Adding.{put_slot, set_neg_lent}
use tor_android_service_arch.Cache.Store.Entry.{del_cent_rrset_by_index-qname}
use tor_android_service_arch.Names.{Bytes}
use tor_android_service_arch.Prelude.{
  ℕ, zero, suc, ◌+◌, ◌≤◌, ◌/◌, ◌≡◌, refl, sym, ap, ◌∙◌, arith, Bool, true, false, ltb, ◌==◌, [],
  ◌∷◌, Option, none, some, length, Bool-cases, Option-cases, inl, inr,
}

module _ (sz : Sizes) where
  forget_slots_books :
      (ss : Slots)
      → (length (forget_slots ss) ≡ length ss)
        × (slots_size sz (forget_slots ss) ≡ slots_size sz ss)
        × (slots_count sz (forget_slots ss) ≡ slots_count sz ss)
  forget_slots_books [] = (refl, refl, refl)
  forget_slots_books (none ∷ ss) =
      let (l, z, n) = forget_slots_books ss in (ap suc l, omega (arith, z), omega (arith, n))
  forget_slots_books (some s ∷ ss) =
      let (l, z, n) = forget_slots_books ss in (ap suc l, omega (arith, z), omega (arith, n))

  forget_body_books :
      (b : Body)
      → Shaped sz b
      → Shaped sz (forget_body b)
        × (body_size sz (forget_body b) ≡ body_size sz b)
        × (body_count sz (forget_body b) ≡ body_count sz b)
  forget_body_books (neg lent ttl ts) w = (tt, refl, refl)
  forget_body_books (rr mu none) w = let (l, z, n) = forget_slots_books mu in (l ∙ w, z, n)
  forget_body_books (rr mu (some ext)) w =
      let (l, z, n) = forget_slots_books mu in
      let (l', z', n') = forget_slots_books ext in
      ((l ∙ w.0, l' ∙ w.1), omega (arith, z, z'), omega (arith, n, n'))

  -- A copy has the books of the original.
  pub forget-Accounted :
      (namesz : ℕ) (c : Cent) → Accounted sz namesz c → Accounted sz namesz (forget c)
  forget-Accounted namesz c a =
      let (w, z, n) = forget_body_books c.body a.shaped in
      record { shaped = w; size = omega (arith, a.size, z); count = a.count ∙ sym n }

  -- A set written over one with the same records.
  pub put_slot_books :
      (namesz i : ℕ) (c : Cent) (s s' : RrSet)
      → Accounted sz namesz c
      → slot c i ≡ some s
      → s'.rrs ≡ s.rrs
      → Accounted sz namesz (put_slot c i s') × (slot (put_slot c i s') i ≡ some s')
  put_slot_books namesz i c s s' a e r =
      let h = some-HasSlot sz c.body i s a.shaped e in
      (
        put-Accounted sz namesz c i c.flags (some s') c.cs c.num_rrs a h (rw (e, r) refl)
            (rw e refl),
        slot-put_body sz c.body i (some s') a.shaped h,
      )

  pub set_neg_lent_books :
      (b : Body) (id : ℕ)
      → Shaped sz b
      → Shaped sz (set_neg_lent b id)
        × (body_size sz (set_neg_lent b id) ≡ body_size sz b)
        × (body_count sz (set_neg_lent b id) ≡ body_count sz b)
  set_neg_lent_books (neg lent ttl ts) id w = (tt, refl, refl)
  set_neg_lent_books (rr mu ext) id w = (w, refl, refl)

  set_neg_ttl_books :
      (b : Body) (f : ℕ → ℕ)
      → Shaped sz b
      → Shaped sz (set_neg_ttl b f)
        × (body_size sz (set_neg_ttl b f) ≡ body_size sz b)
        × (body_count sz (set_neg_ttl b f) ≡ body_count sz b)
  set_neg_ttl_books (neg lent ttl ts) f w = (tt, refl, refl)
  set_neg_ttl_books (rr mu ext) f w = (w, refl, refl)

  pub adjust_dom_ttl-Accounted :
      (g : Global) (namesz : ℕ) (c : Cent)
      → Accounted sz namesz c
      → Accounted sz namesz (adjust_dom_ttl g c) × ((adjust_dom_ttl g c).qname ≡ c.qname)
  unfolding adjust_dom_ttl
  adjust_dom_ttl-Accounted g namesz c a = elim (Bool-cases c.flags.nocache) [
    | inl e ↦
        let (w, z, n) = set_neg_ttl_books c.body (λ t. 0) a.shaped in
        rw (adjust_dom_ttl, e)
          (record { shaped = w; size = omega (arith, a.size, z); count = a.count ∙ sym n }, refl)
    | inr e ↦
        let (w, z, n) = set_neg_ttl_books c.body (clamp_ttl g true) a.shaped in
        rw (adjust_dom_ttl, e)
          (record { shaped = w; size = omega (arith, a.size, z); count = a.count ∙ sym n }, refl)
  ]

  pub rrarr_len_bounds : (b : Body) → rrarr_len b ≤ nrrmu + nrrext
  rrarr_len_bounds (neg lent ttl ts) = omega arith
  rrarr_len_bounds (rr mu none) = omega arith
  rrarr_len_bounds (rr mu (some ext)) = omega arith

  pub add_cent_rrset_by_index-qname :
      (al_ext al_set : Bool) (c : Cent) (idx ttl ts : ℕ) (flags : SetFlags)
      → (add_cent_rrset_by_index sz al_ext al_set c idx ttl ts flags).cent.qname ≡ c.qname
  unfolding add_cent_rrset_by_index
  add_cent_rrset_by_index-qname al_ext true c idx ttl ts flags =
      elim (Option-cases (ensure sz al_ext idx (make_positive c.body).1)) [
        | inl e ↦ rw (add_cent_rrset_by_index, e) refl
        | inr (p, e) ↦ rw (add_cent_rrset_by_index, e) refl
      ]
  add_cent_rrset_by_index-qname al_ext false c idx ttl ts flags =
      elim (Option-cases (ensure sz al_ext idx (make_positive c.body).1)) [
        | inl e ↦ rw (add_cent_rrset_by_index, e) refl
        | inr (p, e) ↦ rw (add_cent_rrset_by_index, e) refl
      ]

-- A property that the second loop of `cr_check_add` keeps is kept by all of it.
module _ (sz : Sizes) (excludes : ℕ → ℕ → Bool) (idx now : ℕ) (P : Cent → Type 0) where
  abbrev Kept : Type 0
  Kept = (c : Cent) → P c → P (remove_conflicts sz excludes idx now (rrarr_len c.body) 0 c).0

  weigh-Kept :
      (c : Cent) (ttl : ℕ) (o : Option (ℕ × ℕ))
      → Kept
      → P c
      → P (weigh sz excludes idx now c ttl o).cent
  unfolding weigh replace_conflicts
  weigh-Kept c ttl none k p = p
  weigh-Kept c ttl (some (ncf, nttl)) k p = elim (Bool-cases (ncf == 0)) [
    | inl z ↦ rw z p
    | inr z ↦ elim (Bool-cases (ltb (nttl / ncf) ttl)) [
      | inl t ↦ rw (z, t) (k c p)
      | inr t ↦ rw (z, t) p
    ]
  ]

  cr_check_add-Kept :
      (c : Cent) (ttl : ℕ) (flags : SetFlags)
      → Kept
      → P c
      → P (cr_check_add sz excludes idx now c ttl flags).cent
  unfolding cr_check_add replace_conflicts
  cr_check_add-Kept c ttl flags k p = elim (Bool-cases flags.negative) [
    | inl n ↦ rw (cr_check_add, n) p
    | inr n ↦ elim (Bool-cases flags.local) [
      | inl l ↦ rw (cr_check_add, n, l) (k c p)
      | inr l ↦ elim (Bool-cases c.flags.local) [
        | inl d ↦ simp (cr_check_add, n, l, d) p
        | inr d ↦
            simp (cr_check_add, n, l, d)
              (weigh-Kept c ttl (scan_conflicts excludes idx now (rrarr_len c.body) 0 c 0 0) k p)
      ]
    ]
  ]

module _ (sz : Sizes) (excludes : ℕ → ℕ → Bool) (idx now : ℕ) where
  remove_conflicts-qname :
      (left i : ℕ) (c : Cent) → (remove_conflicts sz excludes idx now left i c).0.qname ≡ c.qname
  unfolding remove_conflicts
  remove_conflicts-qname zero i c = refl
  remove_conflicts-qname (suc left) i c = elim (Bool-cases (conflicts excludes idx i (slot c i))) [
    | inl h ↦ rw h (
        remove_conflicts-qname left (i + 1) (del_cent_rrset_by_index sz c i).cent
        ∙ del_cent_rrset_by_index-qname sz now c i)
    | inr h ↦ rw h (remove_conflicts-qname left (i + 1) c)
  ]

  remove_conflicts-none :
      (namesz left i : ℕ) (c : Cent)
      → Accounted sz namesz c
      → (j : ℕ) → slot c j ≡ none
      → slot (remove_conflicts sz excludes idx now left i c).0 j ≡ none
  remove_conflicts-none namesz left i c a j e =
      let f = remove_conflicts-slot sz excludes idx now namesz left i c a j in ground arith

  -- An entry that is ready for a new set.
  abbrev pub Ready : ℕ → Bytes → Cent → Type 0
  Ready namesz key c = Accounted sz namesz c × (c.qname ≡ key) × (slot c idx ≡ none)

  pub cr_check_add-Ready :
      (namesz : ℕ) (key : Bytes) (c : Cent) (ttl : ℕ) (flags : SetFlags)
      → Ready namesz key c
      → Ready namesz key (cr_check_add sz excludes idx now c ttl flags).cent
  cr_check_add-Ready namesz key c ttl flags r =
      cr_check_add-Kept sz excludes idx now (Ready namesz key) c ttl flags
        (λ d (a, n, e). (
          remove_conflicts-Accounted sz excludes idx now namesz _ 0 d a,
          remove_conflicts-qname _ 0 d ∙ n,
          remove_conflicts-none namesz _ 0 d a idx e,
        ))
        r
