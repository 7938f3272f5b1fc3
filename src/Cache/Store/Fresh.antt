-- ===== src/Cache/Store/Fresh.antt =====
-- The answers of `lookup_cache`.
use mathlib.Core.Path.{subst}
use tor_android_service_arch.Cache.Cent.{Sizes, Cent}
use tor_android_service_arch.Cache.Store.{Store}
use tor_android_service_arch.Cache.Store.Books.{Books, FoundAs}
use tor_android_service_arch.Cache.Store.Look.{
  Wild, Hit, Look, outside, retry, answer, is_fresh, read_found, lookup_read, write_found,
  lookup_write, lookup_cache,
}
use tor_android_service_arch.Cache.Store.Purge.{purge_cent}
use tor_android_service_arch.Cache.Store.Shrunk.{purge_cent-Books}
use tor_android_service_arch.Cache.Store.Above.{by_name, search-encode}
use tor_android_service_arch.Names.{Bytes, dnsnamebufsize}
use tor_android_service_arch.Names.Wire.{Label, encode, IsName}
use tor_android_service_arch.Names.Same.{IsEquivalence}
use tor_android_service_arch.Prelude.{
  ℕ, ◌≤◌, ◌≡◌, refl, Bool, true, false, List, Option, none, some, length, Bool-cases, inl, inr,
}
use tor_android_service_arch.Cache.Store.Found.{FoundIn, search-FoundIn}
use tor_android_service_arch.Cache.Store.Tested.{
  OptionTimely, copied-timely, purge_cent_test, purge_cent_timely,
}

module _ (same : Bytes → Bytes → Bool) (sz : Sizes) (now : ℕ) where
  abbrev pub ReadAnswers : Look → Type 0
  ReadAnswers outside = ⊥
  ReadAnswers retry = Unit
  ReadAnswers (answer f) = OptionTimely now f.cent

  read_found_timely :
      (os : List Bool) (o : Option Cent) (w : Wild) (s : Store)
      → Books sz s
      → FoundAs same s.entries o
      → ReadAnswers (read_found same sz now os o w s)
  read_found_timely os none w s b e = tt
  read_found_timely os (some c) w s b e =
      elim (Bool-cases (is_fresh (purge_cent same sz now true true c s).0)) [
        | inl f ↦
            rw (read_found, f) (copied-timely now os c w (purge_cent_test same sz now c s b e f))
        | inr f ↦ rw (read_found, f) tt
      ]

  write_found_timely :
      (os : List Bool) (o : Option Cent) (w : Wild) (s : Store)
      → IsEquivalence same
      → Books sz s
      → FoundAs same s.entries o
      → OptionTimely now (write_found same sz now os o w s).0.cent
        × Books sz (write_found same sz now os o w s).1
  write_found_timely os none w s q b e = (tt, b)
  write_found_timely os (some c) w s q b e = (
    purge_cent_timely same sz now os w c s q b e,
    purge_cent-Books same sz now true false c s q b e,
  )

  -- A lookup ends with an entry that is timely, or none, and a cache with true books.
  abbrev pub Answers : Option (Hit × Store) → Type 0
  Answers o = (f : Hit) × (s : Store) × (o ≡ some (f, s)) × OptionTimely now f.cent × Books sz s

  -- A name in transport format that fits into a buffer.
  module _ (ls : List Label) (n : IsName ls) (h : length (encode ls) ≤ dnsnamebufsize) where
    found_as :
        (wild : Bool) (s : Store)
        → IsEquivalence same
        → FoundAs same s.entries (by_name same s.entries wild ls).cent
    found_as wild s q =
        subst (FoundIn same s.entries) (search-encode same s.entries wild ls n h)
          (search-FoundIn same wild (encode ls) s.entries q)

    lookup_write-Answers :
        (os : List Bool) (wild : Bool) (s : Store)
        → IsEquivalence same
        → Books sz s
        → Answers (lookup_write same sz now os wild (encode ls) s)
    unfolding lookup_write
    lookup_write-Answers os wild s q b =
        let f = by_name same s.entries wild ls in
        let (t, b') = write_found_timely os f.cent f.wild s q b (found_as wild s q) in
        let r = write_found same sz now os f.cent f.wild s in
        (r.0, r.1, rw (lookup_write, search-encode same s.entries wild ls n h) refl, t, b')

    lookup_read-ReadAnswers :
        (os : List Bool) (wild : Bool) (s : Store)
        → IsEquivalence same
        → Books sz s
        → ReadAnswers (lookup_read same sz now os wild (encode ls) s)
    unfolding lookup_read
    lookup_read-ReadAnswers os wild s q b =
        let f = by_name same s.entries wild ls in
        rw (lookup_read, search-encode same s.entries wild ls n h)
          (read_found_timely os f.cent f.wild s b (found_as wild s q))

    continued :
        (os : List Bool) (wild : Bool) (others : Store → Store) (s : Store) (r : Look)
        → IsEquivalence same
        → Books sz s
        → Books sz (others s)
        → ReadAnswers r
        → Answers (elim r [
          | outside ↦ none
          | answer f ↦ some (f, s)
          | retry ↦ lookup_write same sz now os wild (encode ls) (others s)
        ])
    continued os wild others s outside q b b' t = absurd t
    continued os wild others s retry q b b' t = lookup_write-Answers os wild (others s) q b'
    continued os wild others s (answer f) q b b' t = (f, s, refl, t, b)

    -- For a name that fits into a buffer, `lookup_cache` ends. The entry that it gives, if any, holds
    -- no record set that has timed out and is neither local nor exempt from purging, and the cache
    -- has true books behind it, if it has them at both locks.
    pub lookup_cache-Answers :
        (os : List Bool) (wild : Bool) (others : Store → Store) (s : Store)
        → IsEquivalence same
        → Books sz s
        → Books sz (others s)
        → Answers (lookup_cache same sz now os wild (encode ls) others s)
    unfolding lookup_cache
    lookup_cache-Answers os wild others s q b b' =
        continued os wild others s (lookup_read same sz now os wild (encode ls) s) q b b'
          (lookup_read-ReadAnswers os wild s q b)
