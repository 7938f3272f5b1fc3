-- ===== src/Cache/Cent/PurgeBooks.antt =====
-- The books of an entry, and of the cache, under `purge_rrset` and `purge_all_rrsets`.
use mathlib.Core.Path.{subst}
use native.Mathlib.Decide.{ℕ_discrete}
use tor_android_service_arch.Cache.Cent.{
  Sizes, nrrmu, nrrext, neg, rr, RrSet, Slots, Body, Cent, slot, slot_of_body, put_body, rrarr_len,
  del_cent_rrset_by_index,
}
use tor_android_service_arch.Cache.Cent.Accounts.{
  Accounted, Shaped, set_size, present, slots_size, slots_count, body_size, body_count,
  del_cent_rrset_by_index-Accounted,
}
use tor_android_service_arch.Cache.Cent.Slots.{del_slot_ne}
use tor_android_service_arch.Prelude.{
  ℕ, zero, suc, ◌+◌, ◌-◌, ◌≤◌, ◌<◌, ◌≡◌, refl, sym, ap, ◌∙◌, arith, Bool, true, false, ltb, ◌==◌,
  [], ◌∷◌, Option, none, some, length, get_or, Bool-cases, Option-cases, inl, inr,
}
use tor_android_service_arch.Cache.Cent.Purge.{
  must_go, is_some, Purged, purge_rrset, purge_step, purge_loop, drop_rrext, purge_all_rrsets,
}

module _ (sz : Sizes) (now : ℕ) (test : Bool) where
  -- The bytes an entry loses are those subtracted from `cache_size`.
  pub purge_step-Accounted :
      (namesz total i : ℕ) (p : Purged)
      → Accounted sz namesz p.cent
      → p.cent.cs + p.freed ≡ total
      → Accounted sz namesz (purge_step sz now test p i).cent
        × ((purge_step sz now test p i).cent.cs + (purge_step sz now test p i).freed ≡ total)
  unfolding purge_step
  purge_step-Accounted namesz total i p a e =
      ground (arith, del_cent_rrset_by_index-Accounted sz namesz i p.cent a)

  purge_loop-Accounted :
      (namesz total left i : ℕ) (p : Purged)
      → Accounted sz namesz p.cent
      → p.cent.cs + p.freed ≡ total
      → Accounted sz namesz (purge_loop sz now test left i p).cent
        × ((purge_loop sz now test left i p).cent.cs + (purge_loop sz now test left i p).freed
            ≡ total)
  unfolding purge_loop
  purge_loop-Accounted namesz total zero i p a e = (a, e)
  purge_loop-Accounted namesz total (suc left) i p a e =
      let (a', e') = purge_step-Accounted namesz total i p a e in
      purge_loop-Accounted namesz total left (i + 1) (purge_step sz now test p i) a' e'

  -- `purge_rrset` keeps the books of the entry, and subtracts from the size of the cache what the
  -- entry loses.
  pub purge_rrset-Accounted :
      (namesz idx : ℕ) (c : Cent)
      → Accounted sz namesz c
      → Accounted sz namesz (purge_rrset sz now test c idx).cent
        × ((purge_rrset sz now test c idx).cent.cs + (purge_rrset sz now test c idx).freed ≡ c.cs)
  unfolding purge_rrset
  purge_rrset-Accounted namesz idx c a =
      ground (arith, del_cent_rrset_by_index-Accounted sz namesz idx c a)

-- After a run that really deletes, the sets of the other types that are still there are counted.
module _ (sz : Sizes) (now : ℕ) where
  abbrev Counted : ℕ → Purged → Type 0
  Counted i p = p.numrrext ≡ 0 → (j : ℕ) → nrrmu ≤ j → j < i → slot p.cent j ≡ none

  purge_step_go :
      (p : Purged) (i : ℕ)
      → must_go now (slot p.cent i) ≡ true
      → ((purge_step sz now false p i).numrrext ≡ p.numrrext)
        × ((purge_step sz now false p i).cent ≡ (del_cent_rrset_by_index sz p.cent i).cent)
  unfolding purge_step
  purge_step_go p i g = rw (purge_step, g) (refl, refl)

  purge_step_stay :
      (p : Purged) (i : ℕ)
      → must_go now (slot p.cent i) ≡ false
      → ((purge_step sz now false p i).cent ≡ p.cent)
        × (p.numrrext ≤ (purge_step sz now false p i).numrrext)
        × (nrrmu ≤ i → (purge_step sz now false p i).numrrext ≡ 0 → slot p.cent i ≡ none)
  unfolding purge_step
  purge_step_stay p i g = elim (Bool-cases (is_some (slot p.cent i))) [
    | inl y ↦ simp (purge_step, g, y) (refl, ground arith, λ l z. ground arith)
    | inr y ↦ simp (purge_step, g, y) (refl, omega arith, λ l z. ground arith)
  ]

  purge_step-Counted :
      (namesz i : ℕ) (p : Purged)
      → Accounted sz namesz p.cent
      → Counted i p
      → Counted (i + 1) (purge_step sz now false p i)
  purge_step-Counted namesz i p a k z j l h = elim (Bool-cases (must_go now (slot p.cent i))) [
    | inl g ↦
        let (same, gone) = purge_step_go p i g in
        rw gone (elim (ℕ_discrete i j) [
          | yes e ↦ rw (← e) (del_cent_rrset_by_index-Accounted sz namesz i p.cent a).2
          | no n ↦ del_slot_ne sz p.cent i j n ∙ k (sym same ∙ z) j l (omega arith)
        ])
    | inr g ↦
        let (same, more, absent) = purge_step_stay p i g in
        rw same (elim (ℕ_discrete i j) [
          | yes e ↦ rw (← e) (absent (omega arith) z)
          | no n ↦ k (omega arith) j l (omega arith)
        ])
  ]

  purge_loop-Counted :
      (namesz left i : ℕ) (p : Purged)
      → Accounted sz namesz p.cent
      → Counted i p
      → Counted (i + left) (purge_loop sz now false left i p)
  unfolding purge_loop
  purge_loop-Counted namesz zero i p a k z j l h = k z j l (omega arith)
  purge_loop-Counted namesz (suc left) i p a k z j l h =
      purge_loop-Counted namesz left (i + 1) (purge_step sz now false p i)
        (purge_step-Accounted sz now false namesz _ i p a refl).0
        (purge_step-Counted namesz i p a k) z j l (omega arith)

  put_body_len : (b : Body) (i : ℕ) (v : Option RrSet) → rrarr_len (put_body b i v) ≡ rrarr_len b
  put_body_len (neg lent ttl ts) i v = refl
  put_body_len (rr mu none) i v = ground arith
  put_body_len (rr mu (some ext)) i v = ground arith

  del_len :
      (c : Cent) (i : ℕ) → rrarr_len (del_cent_rrset_by_index sz c i).cent.body ≡ rrarr_len c.body
  unfolding del_cent_rrset_by_index
  del_len c i = elim (Option-cases (slot c i)) [
    | inl e ↦ rw (del_cent_rrset_by_index, e) refl
    | inr (s, e) ↦ rw (del_cent_rrset_by_index, e) (put_body_len c.body i none)
  ]

  purge_loop_len :
      (left i : ℕ) (p : Purged)
      → rrarr_len (purge_loop sz now false left i p).cent.body ≡ rrarr_len p.cent.body
  unfolding purge_loop
  purge_loop_len zero i p = refl
  purge_loop_len (suc left) i p =
      purge_loop_len left (i + 1) (purge_step sz now false p i)
      ∙ elim (Bool-cases (must_go now (slot p.cent i))) [
        | inl g ↦ ap (λ c. rrarr_len c.body) (purge_step_go p i g).1 ∙ del_len p.cent i
        | inr g ↦ ap (λ c. rrarr_len c.body) (purge_step_stay p i g).0
      ]

  slots_empty :
      (ss : Slots)
      → ((j : ℕ) → j < length ss → get_or ss j none ≡ none)
      → (slots_size sz ss ≡ 0) × (slots_count sz ss ≡ 0)
  slots_empty [] h = (refl, refl)
  slots_empty (s ∷ ss) h =
      let first = h 0 (omega arith) in
      let (size, count) = slots_empty ss (λ j l. h (suc j) (omega arith)) in
      (omega (arith, ap (set_size sz) first, size), omega (arith, ap (present sz) first, count))

  ext_slot :
      (mu ext : Slots) (j : ℕ) → slot_of_body (rr mu (some ext)) (nrrmu + j) ≡ get_or ext j none
  ext_slot mu ext j =
      let e : nrrmu + j - nrrmu ≡ j = omega arith in
      let f : ltb (nrrmu + j) nrrmu ≡ false = ground arith in rw (f, e) refl

  ext_empty :
      (mu ext : Slots) (p : Purged)
      → p.cent.body ≡ rr mu (some ext)
      → length ext ≡ nrrext
      → Counted (nrrmu + nrrext) p
      → p.numrrext ≡ 0
      → (slots_size sz ext ≡ 0) × (slots_count sz ext ≡ 0)
  ext_empty mu ext p f w k z = slots_empty ext (λ j l.
      sym (ext_slot mu ext j)
      ∙ ap (λ b. slot_of_body b (nrrmu + j)) (sym f)
      ∙ k z (nrrmu + j) (omega arith) (omega arith))

  drop_rrext-Accounted :
      (namesz total : ℕ) (p : Purged) (b : Body)
      → p.cent.body ≡ b
      → Accounted sz namesz p.cent
      → p.cent.cs + p.freed ≡ total
      → Counted (rrarr_len b) p
      → Accounted sz namesz (drop_rrext sz now false p b).cent
        × ((drop_rrext sz now false p b).cent.cs + (drop_rrext sz now false p b).freed ≡ total)
  unfolding drop_rrext
  drop_rrext-Accounted namesz total p (neg lent ttl ts) f a e k = (a, e)
  drop_rrext-Accounted namesz total p (rr mu none) f a e k = (a, e)
  drop_rrext-Accounted namesz total p (rr mu (some ext)) f a e k =
      elim (Bool-cases (p.numrrext == 0)) [
        | inr n ↦ rw n (a, e)
        | inl y ↦
            let z : p.numrrext ≡ 0 = ground arith in
            let w = subst (Shaped sz) f a.shaped in
            let (size, count) = ext_empty mu ext p f w.1 k z in
            let whole = ap (body_size sz) f in
            let sets = ap (body_count sz) f in
            simp y (
              record {
                shaped = w.0;
                size = omega (arith, a.size, whole, size);
                count = omega (arith, a.count, sets, count);
              },
              omega (arith, e, a.size, whole),
            )
      ]

  -- Purging the sets of an entry, and freeing the second array where none of its sets is left, keeps
  -- the books of the entry, and subtracts from the size of the cache exactly what the entry loses.
  pub purge_all_rrsets-Accounted :
      (namesz : ℕ) (c : Cent)
      → Accounted sz namesz c
      → Accounted sz namesz (purge_all_rrsets sz now false c).cent
        × ((purge_all_rrsets sz now false c).cent.cs + (purge_all_rrsets sz now false c).freed
            ≡ c.cs)
  unfolding purge_all_rrsets
  purge_all_rrsets-Accounted namesz c a =
      let p0 : Purged = record {
        rv = 0;
        numrrs = 0;
        numrrext = 0;
        cent = c;
        freed = 0;
        unlinked = [];
      } in
      let n = rrarr_len c.body in
      let p = purge_loop sz now false n 0 p0 in
      let (a', e') = purge_loop-Accounted sz now false namesz c.cs n 0 p0 a (omega arith) in
      let k = purge_loop-Counted namesz n 0 p0 a (λ z j l h. absurd (omega arith)) in
      drop_rrext-Accounted namesz c.cs p p.cent.body refl a' e'
        (rw (purge_loop_len n 0 p0) (λ z j l h. k z j l (omega arith)))
