-- ===== src/Cache/Cent/Slots.antt =====
-- The slots of an entry, seen one at a time.
use tor_android_service_arch.Cache.Cent.{
  Sizes, nrrmu, neg, rr, RrSet, Body, Cent, slot, slot_of_body, put_body, del_cent_rrset_by_index,
}
use tor_android_service_arch.Prelude.{
  ℕ, ◌-◌, ◌≡◌, ◌≢◌, refl, arith, Option, none, some, get_or-set_ne, Option-cases, inl, inr,
}

slot-put_ne :
    (b : Body) (i j : ℕ) (v : Option RrSet)
    → i ≢ j
    → slot_of_body (put_body b i v) j ≡ slot_of_body b j
slot-put_ne (neg lent ttl ts) i j v n = refl
slot-put_ne (rr mu none) i j v n = ground (arith, get_or-set_ne mu i j v none n)
slot-put_ne (rr mu (some ext)) i j v n =
    ground (arith, get_or-set_ne mu i j v none n, get_or-set_ne ext (i - nrrmu) (j - nrrmu) v none)

module _ (sz : Sizes) where
  -- Deleting the set of one index leaves the sets of the others.
  pub del_slot_ne :
      (c : Cent) (i j : ℕ) → i ≢ j → slot (del_cent_rrset_by_index sz c i).cent j ≡ slot c j
  unfolding del_cent_rrset_by_index
  del_slot_ne c i j n = elim (Option-cases (slot c i)) [
    | inl e ↦ rw (del_cent_rrset_by_index, e) refl
    | inr (s, e) ↦ rw (del_cent_rrset_by_index, e) (slot-put_ne c.body i j none n)
  ]
