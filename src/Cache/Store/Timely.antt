-- ===== src/Cache/Store/Timely.antt =====
-- A purge leaves an entry without sets that must go, and a test of it tells whether there are any.
use mathlib.Core.Path.{subst}
use native.Mathlib.Decide.{ℕ_discrete}
use tor_android_service_arch.Cache.Cent.{
  Sizes, nrrmu, Slots, Body, neg, rr, Cent, slot, slot_of_body, rrarr_len,
}
use tor_android_service_arch.Cache.Cent.Accounts.{
  Accounted, Shaped, del_cent_rrset_by_index-Accounted,
}
use tor_android_service_arch.Cache.Cent.Copy.{
  copy_cent, forget_slots, forget_body, copy_cent-forget,
}
use tor_android_service_arch.Cache.Cent.Purge.{
  must_go, is_some, Purged, purge_step, purge_loop, drop_rrext, purge_all_rrsets,
}
use tor_android_service_arch.Cache.Cent.PurgeBooks.{purge_step-Accounted}
use tor_android_service_arch.Cache.Cent.Slots.{del_slot_ne}
use tor_android_service_arch.Cache.Cent.Ttl.{timedout}
use tor_android_service_arch.Cache.Store.Entry.{Untouched, looped, purge_step-Untouched}
use tor_android_service_arch.Prelude.{
  ℕ, zero, suc, ◌+◌, ◌-◌, ◌≤◌, ◌<◌, ◌≡◌, ◌⊎◌, refl, sym, ◌∙◌, arith, Bool, true, false, ltb, ◌==◌,
  List, [], ◌∷◌, none, some, length, get_or, Bool-cases, inl, inr,
}

module _ (now : ℕ) where
  -- No set of the entry must go: each is local, or not to be purged, or has not timed out.
  abbrev pub IsTimely : Cent → Type 0
  IsTimely c = (i : ℕ) → must_go now (slot c i) ≡ false

  get_or_beyond : (ss : Slots) (i : ℕ) → length ss ≤ i → get_or ss i none ≡ none
  get_or_beyond [] i h = refl
  get_or_beyond (s ∷ ss) zero h = absurd (omega (arith, h))
  get_or_beyond (s ∷ ss) (suc i) h = get_or_beyond ss i (omega arith)

  slot_beyond :
      (sz : Sizes) (b : Body) (i : ℕ) → Shaped sz b → rrarr_len b ≤ i → slot_of_body b i ≡ none
  slot_beyond sz (neg lent ttl ts) i w h = refl
  slot_beyond sz (rr mu none) i w h = ground arith
  slot_beyond sz (rr mu (some ext)) i w h =
      let e = get_or_beyond ext (i - nrrmu) (omega (arith, w.1)) in ground arith

  forget_slots-must_go :
      (ss : Slots) (i : ℕ)
      → must_go now (get_or (forget_slots ss) i none) ≡ must_go now (get_or ss i none)
  unfolding timedout
  forget_slots-must_go [] i = refl
  forget_slots-must_go (none ∷ ss) zero = refl
  forget_slots-must_go (some s ∷ ss) zero = refl
  forget_slots-must_go (none ∷ ss) (suc i) = forget_slots-must_go ss i
  forget_slots-must_go (some s ∷ ss) (suc i) = forget_slots-must_go ss i

  forget_body-must_go :
      (b : Body) (i : ℕ)
      → must_go now (slot_of_body (forget_body b) i) ≡ must_go now (slot_of_body b i)
  forget_body-must_go (neg lent ttl ts) i = refl
  forget_body-must_go (rr mu none) i = elim (Bool-cases (ltb i nrrmu)) [
    | inl lo ↦ rw lo (forget_slots-must_go mu i)
    | inr hi ↦ rw hi refl
  ]
  forget_body-must_go (rr mu (some ext)) i = elim (Bool-cases (ltb i nrrmu)) [
    | inl lo ↦ rw lo (forget_slots-must_go mu i)
    | inr hi ↦ rw hi (forget_slots-must_go ext (i - nrrmu))
  ]

  -- A copy is as timely as the original.
  pub copy_cent-IsTimely :
      (os os' : List Bool) (c d : Cent) → copy_cent os c ≡ some (d, os') → IsTimely c → IsTimely d
  copy_cent-IsTimely os os' c d e t =
      subst IsTimely (sym (copy_cent-forget os os' c d e)) (λ i. forget_body-must_go c.body i ∙ t i)

module _ (sz : Sizes) (now : ℕ) where
  test_step :
      (p : Purged) (i : ℕ)
      → (purge_step sz now true p i).rv ≡ 0
      → (p.rv ≡ 0) × (must_go now (slot p.cent i) ≡ false)
  unfolding purge_step
  test_step p i e = elim (Bool-cases (must_go now (slot p.cent i))) [
    | inl g ↦ let f : p.rv + 1 ≡ 0 = rw (purge_step, g) at e in absurd (omega (arith, f))
    | inr g ↦ elim (Bool-cases (is_some (slot p.cent i))) [
      | inl h ↦ (rw (purge_step, g, h) at e, g)
      | inr h ↦ (rw (purge_step, g, h) at e, g)
    ]
  ]

  -- A test that counts nothing has met no set that must go.
  test_loop :
      (c : Cent) (left i : ℕ) (p : Purged)
      → Untouched sz now c p
      → (purge_loop sz now true left i p).rv ≡ 0
      → (p.rv ≡ 0) × ((j : ℕ) → i ≤ j → j < i + left → must_go now (slot c j) ≡ false)
  unfolding purge_loop
  test_loop c zero i p u e = (e, λ j h k. absurd (omega (arith, h, k)))
  test_loop c (suc left) i p u e =
      let u' = purge_step-Untouched sz now c p i u in
      let (z, rest) = test_loop c left (i + 1) (purge_step sz now true p i) u' e in
      let (z', here) = test_step p i z in
      (
        z',
        λ j h k. elim (ℕ_discrete i j) [
          | yes q ↦ rw (← q, ← u.0) here
          | no n ↦ rest j (omega arith) (omega arith)
        ],
      )

  drop_rrext-rv : (p : Purged) (b : Body) → (drop_rrext sz now true p b).rv ≡ 0 → p.rv ≡ 0
  unfolding drop_rrext
  drop_rrext-rv p (neg lent ttl ts) e = e
  drop_rrext-rv p (rr mu none) e = e
  drop_rrext-rv p (rr mu (some ext)) e = elim (Bool-cases (p.numrrext == 0)) [
    | inl z ↦ let f : p.rv + 1 ≡ 0 = rw (drop_rrext, z) at e in absurd (omega (arith, f))
    | inr z ↦ rw (drop_rrext, z) at e
  ]

  -- A test of an entry that counts nothing tells that the entry is timely.
  pub purge_all_rrsets_test :
      (namesz : ℕ) (c : Cent)
      → Accounted sz namesz c
      → (purge_all_rrsets sz now true c).rv ≡ 0
      → IsTimely now c
  unfolding purge_all_rrsets
  purge_all_rrsets_test namesz c a e i =
      let z = drop_rrext-rv (looped sz now true c) (looped sz now true c).cent.body e in
      let (_, all) = test_loop c (rrarr_len c.body) 0 _ (refl, refl, refl) z in
      elim (Bool-cases (ltb i (rrarr_len c.body))) [
        | inl lo ↦ all i (omega arith) (ground arith)
        | inr hi ↦ rw (slot_beyond now sz c.body i a.shaped (ground arith)) refl
      ]

  step_keeps :
      (p : Purged) (i j : ℕ)
      → must_go now (slot p.cent j) ≡ false
      → must_go now (slot (purge_step sz now false p i).cent j) ≡ false
  unfolding purge_step
  step_keeps p i j t = elim (Bool-cases (must_go now (slot p.cent i))) [
    | inl g ↦
        rw (purge_step, g)
          (elim (ℕ_discrete i j) [
            | yes q ↦ let u : must_go now (slot p.cent i) ≡ false = rw q t in cc
            | no n ↦ rw (del_slot_ne sz p.cent i j n) t
          ])
    | inr g ↦ elim (Bool-cases (is_some (slot p.cent i))) [
      | inl h ↦ rw (purge_step, g, h) t
      | inr h ↦ rw (purge_step, g, h) t
    ]
  ]

  step_clears :
      (namesz : ℕ) (p : Purged) (i : ℕ)
      → Accounted sz namesz p.cent
      → must_go now (slot (purge_step sz now false p i).cent i) ≡ false
  unfolding purge_step
  step_clears namesz p i a = elim (Bool-cases (must_go now (slot p.cent i))) [
    | inl g ↦
        rw (purge_step, g) (rw (del_cent_rrset_by_index-Accounted sz namesz i p.cent a).2 refl)
    | inr g ↦ step_keeps p i i g
  ]

  -- What the loop has passed, and what was timely before, is timely behind it.
  loop_clears :
      (namesz left i : ℕ) (p : Purged)
      → Accounted sz namesz p.cent
      → (j : ℕ) → (i ≤ j × j < i + left) ⊎ (must_go now (slot p.cent j) ≡ false)
      → must_go now (slot (purge_loop sz now false left i p).cent j) ≡ false
  unfolding purge_loop
  loop_clears namesz zero i p a j (inl (h, k)) = absurd (omega (arith, h, k))
  loop_clears namesz zero i p a j (inr t) = t
  loop_clears namesz (suc left) i p a j d =
      let (a', _) = purge_step-Accounted sz now false namesz _ i p a refl in
      loop_clears namesz left (i + 1) (purge_step sz now false p i) a' j (elim (ℕ_discrete i j) [
        | yes q ↦ inr (rw (← q) (step_clears namesz p i a))
        | no n ↦ elim d [
          | inl (h, k) ↦ inl (omega arith, omega arith)
          | inr t ↦ inr (step_keeps p i j t)
        ]
      ])

  drop_rrext-IsTimely :
      (p : Purged) (b : Body)
      → p.cent.body ≡ b
      → IsTimely now p.cent
      → IsTimely now (drop_rrext sz now false p b).cent
  unfolding drop_rrext
  drop_rrext-IsTimely p (neg lent ttl ts) q t = t
  drop_rrext-IsTimely p (rr mu none) q t = t
  drop_rrext-IsTimely p (rr mu (some ext)) q t = elim (Bool-cases (p.numrrext == 0)) [
    | inl z ↦
        rw (drop_rrext, z)
          (λ i. elim (Bool-cases (ltb i nrrmu)) [
            | inl lo ↦
                let u : must_go now (slot_of_body (rr mu (some ext)) i) ≡ false =
                  subst (λ (b : Body). must_go now (slot_of_body b i) ≡ false) q (t i) in
                let v : must_go now (get_or mu i none) ≡ false = rw lo at u in rw lo v
            | inr hi ↦ rw hi refl
          ])
    | inr z ↦ rw (drop_rrext, z) t
  ]

  -- A purge leaves no set that must go.
  pub purge_all_rrsets-IsTimely :
      (namesz : ℕ) (c : Cent)
      → Accounted sz namesz c
      → IsTimely now (purge_all_rrsets sz now false c).cent
  unfolding purge_all_rrsets
  purge_all_rrsets-IsTimely namesz c a =
      drop_rrext-IsTimely (looped sz now false c) (looped sz now false c).cent.body refl (λ i.
        loop_clears namesz (rrarr_len c.body) 0 _ a i
          (elim (Bool-cases (ltb i (rrarr_len c.body))) [
            | inl lo ↦ inl (omega arith, ground arith)
            | inr hi ↦ inr (rw (slot_beyond now sz c.body i a.shaped (ground arith)) refl)
          ]))
