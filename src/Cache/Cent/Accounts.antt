-- ===== src/Cache/Cent/Accounts.antt =====
-- The books of an entry: `cs` is the size of all it holds, and `num_rrs` the number of its sets.
use tor_android_service_arch.Cache.Cent.{
  Sizes, nrrmu, nrrext, neg, rr, RrSet, Slots, Body, Cent, CentFlags, with_body, slot, slot_of_body,
  put_body, del_rrset, del_cent_rrset_by_index, rrs_size, init_cent,
}
use tor_android_service_arch.Names.{Bytes}
use tor_android_service_arch.Prelude.{
  ℕ, zero, suc, ◌+◌, ◌-◌, ◌*◌, ◌≤◌, ◌<◌, ◌≡◌, refl, sym, ap, arith, Bool, true, false, [], ◌∷◌,
  Option, none, some, length, get_or, set, replicate, length-set, get_or-set_self, Option-cases,
  inl, inr,
}

module _ (sz : Sizes) where
  abbrev pub set_size : Option RrSet → ℕ
  set_size none = 0
  set_size (some s) = sz.rr_set + rrs_size sz s.rrs

  abbrev pub present : Option RrSet → ℕ
  present none = 0
  present (some s) = 1

  abbrev pub slots_size : Slots → ℕ
  slots_size [] = 0
  slots_size (s ∷ ss) = set_size s + slots_size ss

  abbrev pub slots_count : Slots → ℕ
  slots_count [] = 0
  slots_count (s ∷ ss) = present s + slots_count ss

  abbrev pub body_size : Body → ℕ
  body_size (neg lent ttl ts) = 0
  body_size (rr mu none) = slots_size mu
  body_size (rr mu (some ext)) = slots_size mu + (sz.pointer * nrrext + slots_size ext)

  abbrev pub body_count : Body → ℕ
  body_count (neg lent ttl ts) = 0
  body_count (rr mu none) = slots_count mu
  body_count (rr mu (some ext)) = slots_count mu + slots_count ext

  abbrev pub Shaped : Body → Type 0
  Shaped (neg lent ttl ts) = Unit
  Shaped (rr mu none) = length mu ≡ nrrmu
  Shaped (rr mu (some ext)) = (length mu ≡ nrrmu) × (length ext ≡ nrrext)

  -- `namesz` is the length of the entry's name.
  pub record Accounted (namesz : ℕ) (c : Cent) : Type 0 where
    pub shaped : Shaped c.body
    pub size : c.cs ≡ sz.cent + namesz + body_size c.body
    pub count : c.num_rrs ≡ body_count c.body

  slots_size-set :
      (ss : Slots) (i : ℕ) (v : Option RrSet)
      → i < length ss
      → slots_size (set ss i v) + set_size (get_or ss i none) ≡ slots_size ss + set_size v
  slots_size-set [] i v h = elim h [ ]
  slots_size-set (s ∷ ss) zero v h = omega arith
  slots_size-set (s ∷ ss) (suc i) v h = omega (arith, slots_size-set ss i v (omega arith))

  slots_count-set :
      (ss : Slots) (i : ℕ) (v : Option RrSet)
      → i < length ss
      → slots_count (set ss i v) + present (get_or ss i none) ≡ slots_count ss + present v
  slots_count-set [] i v h = elim h [ ]
  slots_count-set (s ∷ ss) zero v h = omega arith
  slots_count-set (s ∷ ss) (suc i) v h = omega (arith, slots_count-set ss i v (omega arith))

  -- An index for which there is a slot.
  abbrev pub HasSlot : Body → ℕ → Type 0
  HasSlot (neg lent ttl ts) i = ⊥
  HasSlot (rr mu none) i = i < nrrmu
  HasSlot (rr mu (some ext)) i = i < nrrmu + nrrext

  pub put_body-size :
      (b : Body) (i : ℕ) (v : Option RrSet)
      → Shaped b
      → HasSlot b i
      → body_size (put_body b i v) + set_size (slot_of_body b i) ≡ body_size b + set_size v
  put_body-size (neg lent ttl ts) i v s h = elim h [ ]
  put_body-size (rr mu none) i v s h = ground (arith, slots_size-set mu i v)
  put_body-size (rr mu (some ext)) i v s h =
      ground (arith, slots_size-set mu i v, slots_size-set ext (i - nrrmu) v)

  pub put_body-count :
      (b : Body) (i : ℕ) (v : Option RrSet)
      → Shaped b
      → HasSlot b i
      → body_count (put_body b i v) + present (slot_of_body b i) ≡ body_count b + present v
  put_body-count (neg lent ttl ts) i v s h = elim h [ ]
  put_body-count (rr mu none) i v s h = ground (arith, slots_count-set mu i v)
  put_body-count (rr mu (some ext)) i v s h =
      ground (arith, slots_count-set mu i v, slots_count-set ext (i - nrrmu) v)

  pub put_body-Shaped : (b : Body) (i : ℕ) (v : Option RrSet) → Shaped b → Shaped (put_body b i v)
  put_body-Shaped (neg lent ttl ts) i v s = tt
  put_body-Shaped (rr mu none) i v s = ground (arith, length-set mu i v)
  put_body-Shaped (rr mu (some ext)) i v s =
      ground (arith, length-set mu i v, length-set ext (i - nrrmu) v)

  get_or-lt : (ss : Slots) (i : ℕ) (s : RrSet) → get_or ss i none ≡ some s → i < length ss
  get_or-lt [] i s e = cc
  get_or-lt (x ∷ ss) zero s e = omega arith
  get_or-lt (x ∷ ss) (suc i) s e = omega (arith, get_or-lt ss i s e)

  pub some-HasSlot :
      (b : Body) (i : ℕ) (s : RrSet) → Shaped b → slot_of_body b i ≡ some s → HasSlot b i
  some-HasSlot (neg lent ttl ts) i s w e = cc
  some-HasSlot (rr mu none) i s w e = ground arith
  some-HasSlot (rr mu (some ext)) i s w e = ground (arith, get_or-lt ext (i - nrrmu) s)

  -- Writing a set of another size to a slot.
  pub put-Accounted :
      (namesz : ℕ) (c : Cent) (i : ℕ) (flags : CentFlags) (v : Option RrSet) (cs num : ℕ)
      → Accounted namesz c
      → HasSlot c.body i
      → cs + set_size (slot c i) ≡ c.cs + set_size v
      → num + present (slot c i) ≡ c.num_rrs + present v
      → Accounted namesz (with_body c cs num flags (put_body c.body i v))
  put-Accounted namesz c i flags v cs num a h e n = record {
    shaped = put_body-Shaped c.body i v a.shaped;
    size = omega (arith, a.size, put_body-size c.body i v a.shaped h);
    count = omega (arith, a.count, put_body-count c.body i v a.shaped h);
  }

  pub slots_size-replicate : (n : ℕ) → slots_size (replicate n none) ≡ 0
  slots_size-replicate zero = refl
  slots_size-replicate (suc n) = omega (arith, slots_size-replicate n)

  pub slots_count-replicate : (n : ℕ) → slots_count (replicate n none) ≡ 0
  slots_count-replicate zero = refl
  slots_count-replicate (suc n) = omega (arith, slots_count-replicate n)

  pub slot-put_body :
      (b : Body) (i : ℕ) (v : Option RrSet)
      → Shaped b
      → HasSlot b i
      → slot_of_body (put_body b i v) i ≡ v
  slot-put_body (neg lent ttl ts) i v s h = elim h [ ]
  slot-put_body (rr mu none) i v s h = ground (arith, get_or-set_self mu i v none)
  slot-put_body (rr mu (some ext)) i v s h =
      ground (arith, get_or-set_self mu i v none, get_or-set_self ext (i - nrrmu) v none)

  -- An entry whose name could be copied is well accounted.
  pub init_cent-Accounted :
      (negative : Bool) (qname : Bytes) (namesz ttl ts : ℕ) (flags : CentFlags)
      → (c : Cent) × (init_cent sz true negative qname namesz ttl ts flags ≡ some c)
        × Accounted namesz c
  unfolding init_cent
  init_cent-Accounted true qname namesz ttl ts flags =
      (_, refl, record { shaped = tt; size = omega arith; count = refl })
  init_cent-Accounted false qname namesz ttl ts flags = (
    _,
    refl,
    record {
      shaped = refl;
      size = omega (arith, slots_size-replicate nrrmu);
      count = sym (slots_count-replicate nrrmu);
    },
  )

  -- Deleting a record set keeps the books, and returns the bytes that the entry has lost.
  pub del_cent_rrset_by_index-Accounted :
      (namesz i : ℕ) (c : Cent)
      → Accounted namesz c
      → Accounted namesz (del_cent_rrset_by_index sz c i).cent
        × ((del_cent_rrset_by_index sz c i).cent.cs + (del_cent_rrset_by_index sz c i).ret ≡ c.cs)
        × (slot (del_cent_rrset_by_index sz c i).cent i ≡ none)
  unfolding del_cent_rrset_by_index del_rrset
  del_cent_rrset_by_index-Accounted namesz i c a = elim (Option-cases (slot c i)) [
    | inl e ↦ rw (del_cent_rrset_by_index, e) (a, omega arith, e)
    | inr (s, e) ↦
        let h = some-HasSlot c.body i s a.shaped e in
        let held = ap set_size e in
        let there = ap present e in
        let size : sz.rr_set + rrs_size sz s.rrs ≤ c.cs =
          omega (arith, held, a.size, put_body-size c.body i none a.shaped h) in
        let num : 1 ≤ c.num_rrs =
          omega (arith, there, a.count, put_body-count c.body i none a.shaped h) in
        rw (del_cent_rrset_by_index, e)
          (
            put-Accounted namesz c i _ none _ _ a h (omega arith) (omega arith),
            omega arith,
            slot-put_body c.body i none a.shaped h,
          )
  ]
