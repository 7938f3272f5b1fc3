-- ===== src/Cache/Store/Tested.antt =====
-- The test of `purge_cent` changes nothing, and tells whether the entry has a set that must go; a
-- purge in earnest leaves none.
use tor_android_service_arch.Cache.Cent.{Sizes, Cent}
use tor_android_service_arch.Cache.Cent.Copy.{copy_cent}
use tor_android_service_arch.Cache.Cent.Purge.{Purged, purge_all_rrsets}
use tor_android_service_arch.Cache.Store.{Store, find_cent, write_cent}
use tor_android_service_arch.Cache.Store.Books.{
  Books, find_cent-write_cent, find_cent-Accounted, after_sets-Books,
}
use tor_android_service_arch.Cache.Store.Look.{Wild, copied, is_fresh, after_purge}
use tor_android_service_arch.Cache.Store.Purge.{
  Purges, purged, after_sets, drop_refs, is_used_up, rrmuindex_ns, rrmuindex_soa, stale_ref,
  count_true, purge_finish, purge_cent,
}
use tor_android_service_arch.Cache.Store.Entry.{
  Untouched, purge_all_rrsets-Untouched, purge_all_rrsets_books, purge_all_rrsets-qname,
}
use tor_android_service_arch.Cache.Store.Timely.{
  IsTimely, copy_cent-IsTimely, purge_all_rrsets_test, purge_all_rrsets-IsTimely,
}
use tor_android_service_arch.Names.{Bytes}
use tor_android_service_arch.Names.Same.{IsEquivalence}
use tor_android_service_arch.Prelude.{
  ℕ, ◌+◌, ◌-◌, ◌≡◌, refl, sym, ap, ◌∙◌, arith, Bool, true, false, ◌&&◌, ◌==◌, if◌then◌else◌, List,
  [], ◌∷◌, Option, none, some, length, Bool-cases, Option-cases, inl, inr,
}

abbrev pub OptionTimely : (now : ℕ) → Option Cent → Type 0
OptionTimely now none = Unit
OptionTimely now (some c) = IsTimely now c

pub copied-timely :
    (now : ℕ) (os : List Bool) (c : Cent) (w : Wild)
    → IsTimely now c
    → OptionTimely now (copied os c w).cent
copied-timely now os c w t = elim (Option-cases (copy_cent os c)) [
  | inl e ↦ rw (copied, e) tt
  | inr ((copy, os'), e) ↦ rw (copied, e) (copy_cent-IsTimely now os os' c copy e t)
]

module _ (same : Bytes → Bytes → Bool) (sz : Sizes) (now : ℕ) where
  is_fresh-finish :
      (delete test : Bool) (key : Bytes) (c : Cent) (numrrs rv : ℕ) (s : Store)
      → is_fresh (purge_finish same sz now delete test key c numrrs rv s).0 ≡ true
      → rv ≡ 0
  unfolding purge_finish
  is_fresh-finish delete test key c numrrs rv s e = ground arith

  -- Where a test of an entry of the cache finds nothing to purge, the entry is timely.
  pub purge_cent_test :
      (c : Cent) (s : Store)
      → Books sz s
      → find_cent same c.qname s.entries ≡ some c
      → is_fresh (purge_cent same sz now true true c s).0 ≡ true
      → IsTimely now c
  unfolding purge_cent
  purge_cent_test c s b e f =
      purge_all_rrsets_test sz now (length c.qname) c
        (find_cent-Accounted same sz c.qname c s.entries b.accounted e)
        (is_fresh-finish true true c.qname (purge_all_rrsets sz now true c).cent _ _ _ f)

  write_cent_self :
      (key : Bytes) (c : Cent) (cs : List Cent)
      → find_cent same key cs ≡ some c
      → write_cent same key c cs ≡ cs
  write_cent_self key c [] e = refl
  write_cent_self key c (d ∷ cs) e = elim (Bool-cases (same key d.qname)) [
    | inl k ↦ let f : some d ≡ some c = rw k at e in rw k (ground arith)
    | inr k ↦ rw k (ap (λ ds. d ∷ ds) (write_cent_self key c cs (rw k at e)))
  ]

  purge_finish-test :
      (delete : Bool) (key : Bytes) (c : Cent) (numrrs rv : ℕ) (s : Store)
      → find_cent same key s.entries ≡ some c
      → (purge_finish same sz now delete true key c numrrs rv s).1 ≡ s
  unfolding purge_finish
  purge_finish-test delete key c numrrs rv s e =
      let w = write_cent_self key c s.entries e in
      elim (Bool-cases (delete && (numrrs == 0 && is_used_up now c))) [
        | inl h ↦ rw (purge_finish, h) refl
        | inr h ↦
            rw (purge_finish, h)
              (elim (Bool-cases c.flags.local) [ inl l ↦ simp l refl | inr l ↦ simp (l, w) refl ])
      ]

  after_sets-same :
      (c : Cent) (p : Purged) (s : Store)
      → Untouched sz now c p
      → find_cent same c.qname s.entries ≡ some c
      → after_sets same c p s ≡ s
  after_sets-same c p s (u, freed, unlinked) e =
      let w = write_cent_self c.qname c s.entries e in
      let z : s.cache_size - 0 ≡ s.cache_size = omega arith in rw (u, freed, unlinked, w, z) refl

  -- "If test is nonzero, nothing will actually be deleted."
  pub purge_cent-test :
      (delete : Bool) (c : Cent) (s : Store)
      → find_cent same c.qname s.entries ≡ some c
      → (purge_cent same sz now delete true c s).1 ≡ s
  unfolding purge_cent
  purge_cent-test delete c s e =
      let (u, _, _) = purge_all_rrsets-Untouched sz now c in
      let p = purge_all_rrsets sz now true c in
      let same_store = after_sets-same c p s (purge_all_rrsets-Untouched sz now c) e in
      let found : find_cent same c.qname (after_sets same c p s).entries ≡ some p.cent =
        ap (λ (t : Store). find_cent same c.qname t.entries) same_store ∙ e ∙ ap some (sym u) in
      purge_finish-test delete c.qname p.cent p.numrrs p.rv (after_sets same c p s) found
      ∙ same_store

  -- What a lookup gives behind a purge.
  abbrev pub PurgesTimely : List Bool → Wild → Bytes → Purges × Store → Type 0
  PurgesTimely os w key r = OptionTimely now (after_purge same sz now os w key r.0 r.1).cent

  if_timely :
      (os : List Bool) (w : Wild) (key : Bytes) (t : Bool) (r r' : Purges × Store)
      → PurgesTimely os w key r
      → PurgesTimely os w key r'
      → PurgesTimely os w key (if t then r else r')
  if_timely os w key true r r' h h' = h
  if_timely os w key false r r' h h' = h'

  after_purge_timely :
      (os : List Bool) (w : Wild) (key : Bytes) (n : ℕ) (c : Cent) (s : Store)
      → find_cent same key s.entries ≡ some c
      → IsTimely now c
      → PurgesTimely os w key (purged n, s)
  after_purge_timely os w key n c s e t = rw (after_purge, e) (copied-timely now os c w t)

  finish_timely :
      (os : List Bool) (w : Wild) (c : Cent) (numrrs rv : ℕ) (s : Store) (key : Bytes)
      → IsEquivalence same
      → find_cent same key s.entries ≡ some c
      → same key c.qname ≡ true
      → IsTimely now c
      → PurgesTimely os w key (purge_finish same sz now true false key c numrrs rv s)
  unfolding purge_finish
  finish_timely os w c numrrs rv s key q e k t =
      let ns = stale_ref same sz now c rrmuindex_ns c.c_ns s.entries in
      let soa = stale_ref same sz now c rrmuindex_soa c.c_soa s.entries in
      let d = drop_refs false ns soa c in
      if_timely os w key (numrrs == 0 && is_used_up now c) _ _ tt (
        if_timely os w key c.flags.local _ _ (after_purge_timely os w key rv c s e t) (
          after_purge_timely os w key (rv + count_true ns + count_true soa) d
            (record s { entries = write_cent same key d s.entries })
            (find_cent-write_cent same key c d s.entries e k) t))

  -- A purge in earnest that does not remove the entry leaves it in the cache, and timely.
  pub purge_cent_timely :
      (os : List Bool) (w : Wild) (c : Cent) (s : Store)
      → IsEquivalence same
      → Books sz s
      → find_cent same c.qname s.entries ≡ some c
      → PurgesTimely os w c.qname (purge_cent same sz now true false c s)
  unfolding purge_cent
  purge_cent_timely os w c s q b e =
      let p = purge_all_rrsets sz now false c in
      let a = find_cent-Accounted same sz c.qname c s.entries b.accounted e in
      let (a', freed) = purge_all_rrsets_books sz now false (length c.qname) c a in
      let n = purge_all_rrsets-qname sz now false c in
      let (b', e') = after_sets-Books same sz c p s q b e n a' freed in
      finish_timely os w p.cent p.numrrs p.rv (after_sets same c p s) c.qname q e'
        (rw n (q.same_refl c.qname)) (purge_all_rrsets-IsTimely sz now (length c.qname) c a)
