-- ===== src/Cache/Cent/Negate.antt =====
-- The books of an entry under `negate_cent`.
use tor_android_service_arch.Cache.Cent.{Sizes, neg, rr, Slots, Body, Cent, del_rrset}
use tor_android_service_arch.Cache.Cent.Records.{del_slots, negate_cent, negate_body}
use tor_android_service_arch.Cache.Cent.Accounts.{Accounted, slots_size, body_size, body_count}
use tor_android_service_arch.Prelude.{ℕ, ◌+◌, ◌≡◌, refl, arith, [], ◌∷◌, none, some}

module _ (sz : Sizes) where
  del_slots_size : (ss : Slots) → (del_slots sz ss).0 ≡ slots_size sz ss
  unfolding del_slots del_rrset
  del_slots_size [] = refl
  del_slots_size (none ∷ ss) = omega (arith, del_slots_size ss)
  del_slots_size (some s ∷ ss) = omega (arith, del_slots_size ss)

  negate_body-cs :
      (namesz ttl ts : ℕ) (c : Cent) (b : Body)
      → c.cs ≡ sz.cent + namesz + body_size sz b
      → c.num_rrs ≡ body_count sz b
      → ((negate_body sz c ttl ts b).0.cs ≡ sz.cent + namesz)
        × ((negate_body sz c ttl ts b).0.num_rrs ≡ 0)
  unfolding negate_body
  negate_body-cs namesz ttl ts c (neg lent t s) e f = (omega arith, f)
  negate_body-cs namesz ttl ts c (rr mu none) e f = (omega (arith, del_slots_size mu), refl)
  negate_body-cs namesz ttl ts c (rr mu (some ext)) e f =
      (omega (arith, del_slots_size mu, del_slots_size ext), refl)

  -- Negating an entry with true books leaves it with the size of its head and its name alone, and no
  -- record sets.
  pub negate_cent-cs :
      (namesz ttl ts : ℕ) (c : Cent)
      → Accounted sz namesz c
      → ((negate_cent sz c ttl ts).0.cs ≡ sz.cent + namesz)
        × ((negate_cent sz c ttl ts).0.num_rrs ≡ 0)
  unfolding negate_cent
  negate_cent-cs namesz ttl ts c a = negate_body-cs namesz ttl ts c c.body a.size a.count
