-- ===== src/Cache/Store/Entry.antt =====
-- What purging keeps of an entry: its name, its books and, in a test, all of it.
use mathlib.Core.Path.{subst}
use tor_android_service_arch.Cache.Cent.{
  Sizes, Body, neg, rr, Cent, slot, rrarr_len, del_cent_rrset_by_index,
}
use tor_android_service_arch.Cache.Cent.Accounts.{Accounted}
use tor_android_service_arch.Cache.Cent.Purge.{
  Purged, purge_rrset, purge_step, purge_loop, drop_rrext, purge_all_rrsets,
}
use tor_android_service_arch.Cache.Cent.PurgeBooks.{purge_all_rrsets-Accounted}
use tor_android_service_arch.Prelude.{
  ℕ, zero, suc, ◌+◌, ◌≡◌, refl, sym, ap, ◌∙◌, arith, Bool, true, false, [], none, some,
  Option-cases, inl, inr,
}

module _ (sz : Sizes) (now : ℕ) where
  pub del_cent_rrset_by_index-qname :
      (c : Cent) (i : ℕ) → (del_cent_rrset_by_index sz c i).cent.qname ≡ c.qname
  unfolding del_cent_rrset_by_index
  del_cent_rrset_by_index-qname c i = elim (Option-cases (slot c i)) [
    | inl e ↦ rw (del_cent_rrset_by_index, e) refl
    | inr (s, e) ↦ rw (del_cent_rrset_by_index, e) refl
  ]

  pub purge_step-qname :
      (test : Bool) (p : Purged) (i : ℕ) → (purge_step sz now test p i).cent.qname ≡ p.cent.qname
  unfolding purge_step
  purge_step-qname true p i = ground arith
  purge_step-qname false p i = ground (arith, del_cent_rrset_by_index-qname p.cent i)

  pub purge_loop-qname :
      (test : Bool) (left i : ℕ) (p : Purged)
      → (purge_loop sz now test left i p).cent.qname ≡ p.cent.qname
  unfolding purge_loop
  purge_loop-qname test zero i p = refl
  purge_loop-qname test (suc left) i p =
      purge_loop-qname test left (i + 1) (purge_step sz now test p i) ∙ purge_step-qname test p i

  pub drop_rrext-qname :
      (test : Bool) (p : Purged) (b : Body) → (drop_rrext sz now test p b).cent.qname ≡ p.cent.qname
  unfolding drop_rrext
  drop_rrext-qname test p (neg lent ttl ts) = refl
  drop_rrext-qname test p (rr mu none) = refl
  drop_rrext-qname true p (rr mu (some ext)) = ground arith
  drop_rrext-qname false p (rr mu (some ext)) = ground arith

  -- The counters at the beginning, and the state behind the loop.
  abbrev pub looped : (test : Bool) → Cent → Purged
  looped test c =
      purge_loop sz now test (rrarr_len c.body) 0
        (record { rv = 0; numrrs = 0; numrrext = 0; cent = c; freed = 0; unlinked = [] })

  pub purge_all_rrsets-qname :
      (test : Bool) (c : Cent) → (purge_all_rrsets sz now test c).cent.qname ≡ c.qname
  unfolding purge_all_rrsets
  purge_all_rrsets-qname test c =
      drop_rrext-qname test (looped test c) (looped test c).cent.body
      ∙ purge_loop-qname test (rrarr_len c.body) 0 _

  pub purge_rrset-qname : (c : Cent) (i : ℕ) → (purge_rrset sz now false c i).cent.qname ≡ c.qname
  unfolding purge_rrset
  purge_rrset-qname c i = ground (arith, del_cent_rrset_by_index-qname c i)

  -- A test deletes nothing.
  abbrev pub Untouched : Cent → Purged → Type 0
  Untouched c p = (p.cent ≡ c) × (p.freed ≡ 0) × (p.unlinked ≡ [])

  pub purge_step-Untouched :
      (c : Cent) (p : Purged) (i : ℕ) → Untouched c p → Untouched c (purge_step sz now true p i)
  unfolding purge_step
  purge_step-Untouched c p i u = ground arith

  pub purge_loop-Untouched :
      (c : Cent) (left i : ℕ) (p : Purged)
      → Untouched c p
      → Untouched c (purge_loop sz now true left i p)
  unfolding purge_loop
  purge_loop-Untouched c zero i p u = u
  purge_loop-Untouched c (suc left) i p u =
      purge_loop-Untouched c left (i + 1) (purge_step sz now true p i)
        (purge_step-Untouched c p i u)

  pub drop_rrext-Untouched :
      (c : Cent) (p : Purged) (b : Body) → Untouched c p → Untouched c (drop_rrext sz now true p b)
  unfolding drop_rrext
  drop_rrext-Untouched c p (neg lent ttl ts) u = u
  drop_rrext-Untouched c p (rr mu none) u = u
  drop_rrext-Untouched c p (rr mu (some ext)) u = ground arith

  pub purge_all_rrsets-Untouched : (c : Cent) → Untouched c (purge_all_rrsets sz now true c)
  unfolding purge_all_rrsets
  purge_all_rrsets-Untouched c =
      drop_rrext-Untouched c (looped true c) (looped true c).cent.body
        (purge_loop-Untouched c (rrarr_len c.body) 0 _ (refl, refl, refl))

  pub purge_all_rrsets_books :
      (test : Bool) (namesz : ℕ) (c : Cent)
      → Accounted sz namesz c
      → Accounted sz namesz (purge_all_rrsets sz now test c).cent
        × ((purge_all_rrsets sz now test c).cent.cs + (purge_all_rrsets sz now test c).freed ≡ c.cs)
  purge_all_rrsets_books false namesz c a = purge_all_rrsets-Accounted sz now namesz c a
  purge_all_rrsets_books true namesz c a =
      let (same_cent, freed, _) = purge_all_rrsets-Untouched c in
      (
        subst (Accounted sz namesz) (sym same_cent) a,
        omega (arith, freed, ap (λ (d : Cent). d.cs) same_cent),
      )
