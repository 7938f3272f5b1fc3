-- ===== src/Cache/Store/Shrunk.antt =====
-- Purging keeps the books of the cache.
use mathlib.Core.Path.{subst}
use tor_android_service_arch.Cache.Cent.{Sizes, Cent}
use tor_android_service_arch.Cache.Cent.Accounts.{Accounted, del_cent_rrset_by_index-Accounted}
use tor_android_service_arch.Cache.Cent.Purge.{Purged, purge_all_rrsets}
use tor_android_service_arch.Cache.Cent.PurgeBooks.{purge_rrset-Accounted}
use tor_android_service_arch.Cache.Store.{
  Lent, Store, find_cent, write_cent, get_rrlent_ts, del_cache_ent,
}
use tor_android_service_arch.Cache.Rrl.{sort_rrl}
use tor_android_service_arch.Cache.Store.Books.{
  Books, total_cs-write_cent, length-write_cent, find_cent-qname, AllAccounted-write_cent,
  find_cent-Accounted, del_cache_ent-Books, after_sets-Books,
}
use tor_android_service_arch.Cache.Store.Purge.{
  after_sets, drop_refs, is_kept, stale_ref, is_used_up, rrmuindex_ns, rrmuindex_soa, unless_test,
  purge_finish, purge_cent, purge_indexed, purge_timed, del_indexed, purge_old, purge_le, walk_rrl,
  sort_list, purge_cache,
}
use tor_android_service_arch.Names.{Bytes}
use tor_android_service_arch.Names.Same.{IsEquivalence}
use tor_android_service_arch.Prelude.{
  ℕ, ◌+◌, ◌≡◌, refl, sym, ◌∙◌, arith, Bool, true, false, ◌&&◌, leb, ltb, ◌==◌, if◌then◌else◌, List,
  [], ◌∷◌, Option, none, some, length, Bool-cases, Option-cases, inl, inr,
}
use tor_android_service_arch.Cache.Store.Entry.{
  del_cent_rrset_by_index-qname, purge_all_rrsets-qname, purge_rrset-qname, purge_all_rrsets_books,
}

module _ (same : Bytes → Bytes → Bool) (sz : Sizes) (now : ℕ) where
  -- An entry written back with other references.
  rewritten-Books :
      (c d : Cent) (s : Store)
      → IsEquivalence same
      → Books sz s
      → find_cent same c.qname s.entries ≡ some c
      → d.qname ≡ c.qname
      → d.cs ≡ c.cs
      → Accounted sz (length d.qname) d
      → Books sz (record s { entries = write_cent same c.qname d s.entries })
  rewritten-Books c d s q b e n f a =
      let size = total_cs-write_cent same c.qname c d s.entries e in
      record {
        size = omega (arith, b.size, size, f);
        number = b.number ∙ sym (length-write_cent same c.qname d s.entries);
        accounted = AllAccounted-write_cent same sz c.qname d s.entries b.accounted a;
      }

  drop_refs-Accounted :
      (test ns soa : Bool) (namesz : ℕ) (c : Cent)
      → Accounted sz namesz c
      → Accounted sz namesz (drop_refs test ns soa c)
        × ((drop_refs test ns soa c).cs ≡ c.cs)
        × ((drop_refs test ns soa c).qname ≡ c.qname)
  drop_refs-Accounted true ns soa namesz c a = (a, refl, refl)
  drop_refs-Accounted false ns soa namesz c a =
      (record { shaped = a.shaped; size = a.size; count = a.count }, refl, refl)

  unless_test-Books :
      (test : Bool) (c : Cent) (s : Store)
      → Books sz s
      → find_cent same c.qname s.entries ≡ some c
      → Books sz (unless_test same sz now test c s)
  unless_test-Books true c s b e = b
  unless_test-Books false c s b e = del_cache_ent-Books same sz c s b e

  purge_finish-Books :
      (delete test : Bool) (c : Cent) (numrrs rv : ℕ) (s : Store)
      → IsEquivalence same
      → Books sz s
      → find_cent same c.qname s.entries ≡ some c
      → Books sz (purge_finish same sz now delete test c.qname c numrrs rv s).1
  unfolding purge_finish
  purge_finish-Books delete test c numrrs rv s q b e =
      let ns = stale_ref same sz now c rrmuindex_ns c.c_ns s.entries in
      let soa = stale_ref same sz now c rrmuindex_soa c.c_soa s.entries in
      elim (Bool-cases (delete && (numrrs == 0 && is_used_up now c))) [
        | inl h ↦ rw (purge_finish, h) (unless_test-Books test c s b e)
        | inr h ↦
            rw (purge_finish, h)
              (elim (Bool-cases c.flags.local) [
                | inl l ↦ simp l b
                | inr l ↦
                    let a = find_cent-Accounted same sz c.qname c s.entries b.accounted e in
                    let (a', size, name) = drop_refs-Accounted test ns soa (length c.qname) c a in
                    simp l (
                      rewritten-Books c (drop_refs test ns soa c) s q b e name size (
                        subst (λ (n : Bytes). Accounted sz (length n) (drop_refs test ns soa c))
                          (sym name) a'))
              ])
      ]

  -- `purge_cent`, of an entry of the cache, keeps the books of the cache, in a test and in earnest.
  pub purge_cent-Books :
      (delete test : Bool) (c : Cent) (s : Store)
      → IsEquivalence same
      → Books sz s
      → find_cent same c.qname s.entries ≡ some c
      → Books sz (purge_cent same sz now delete test c s).1
  unfolding purge_cent
  purge_cent-Books delete test c s q b e =
      let p = purge_all_rrsets sz now test c in
      let a = find_cent-Accounted same sz c.qname c s.entries b.accounted e in
      let (a', freed) = purge_all_rrsets_books sz now test (length c.qname) c a in
      let n = purge_all_rrsets-qname sz now test c in
      let (b', e') = after_sets-Books same sz c p s q b e n a' freed in
      let s' = after_sets same c p s in
      subst
        (λ (name : Bytes).
          Books sz (purge_finish same sz now delete test name p.cent p.numrrs p.rv s').1)
        n
        (purge_finish-Books delete test p.cent p.numrrs p.rv s' q b'
          (subst (λ (name : Bytes). find_cent same name s'.entries ≡ some p.cent) (sym n) e'))

  purge_indexed_books :
      (namesz : ℕ) (c : Cent) (idx : Option ℕ)
      → Accounted sz namesz c
      → Accounted sz namesz (purge_indexed same sz now c idx).cent
        × ((purge_indexed same sz now c idx).cent.cs + (purge_indexed same sz now c idx).freed
            ≡ c.cs)
        × ((purge_indexed same sz now c idx).cent.qname ≡ c.qname)
  purge_indexed_books namesz c none a = (a, omega arith, refl)
  purge_indexed_books namesz c (some i) a =
      let (a', e) = purge_rrset-Accounted sz now false namesz i c a in
      (a', e, purge_rrset-qname sz now c i)

  del_indexed_books :
      (namesz : ℕ) (c : Cent) (idx : Option ℕ)
      → Accounted sz namesz c
      → Accounted sz namesz (del_indexed same sz now c idx).cent
        × ((del_indexed same sz now c idx).cent.cs + (del_indexed same sz now c idx).freed ≡ c.cs)
        × ((del_indexed same sz now c idx).cent.qname ≡ c.qname)
  del_indexed_books namesz c none a = (a, omega arith, refl)
  del_indexed_books namesz c (some i) a =
      let (a', e, _) = del_cent_rrset_by_index-Accounted sz namesz i c a in
      (a', e, del_cent_rrset_by_index-qname sz now c i)

  -- An entry with fewer sets, which may then be deleted altogether.
  shrink-Books :
      (c : Cent) (p : Purged) (s : Store) (all : Bool)
      → IsEquivalence same
      → Books sz s
      → find_cent same c.qname s.entries ≡ some c
      → Accounted sz (length c.qname) p.cent
        × (p.cent.cs + p.freed ≡ c.cs)
        × (p.cent.qname ≡ c.qname)
      → Books sz (
          if all
          then del_cache_ent same sz p.cent (after_sets same c p s)
          else after_sets same c p s)
  shrink-Books c p s true q b e (a, f, n) =
      let (b', e') = after_sets-Books same sz c p s q b e n a f in
      let s' = after_sets same c p s in
      del_cache_ent-Books same sz p.cent s' b'
        (subst (λ (name : Bytes). find_cent same name s'.entries ≡ some p.cent) (sym n) e')
  shrink-Books c p s false q b e (a, f, n) = (after_sets-Books same sz c p s q b e n a f).0

  -- A step on an entry of the cache that keeps the books.
  abbrev KeepsBooks : (Cent → Option ℕ → Store → Store) → Type 0
  KeepsBooks f =
      (c : Cent) (idx : Option ℕ) (s : Store)
      → Books sz s
      → find_cent same c.qname s.entries ≡ some c
      → Books sz (f c idx s)

  purge_timed-Books : IsEquivalence same → KeepsBooks (purge_timed same sz now)
  purge_timed-Books q c idx s b e = shrink-Books c (purge_indexed same sz now c idx) s _ q b e (
      purge_indexed_books (length c.qname) c idx
        (find_cent-Accounted same sz c.qname c s.entries b.accounted e))

  purge_old-Books : IsEquivalence same → KeepsBooks (purge_old same sz now)
  purge_old-Books q c idx s b e = shrink-Books c (del_indexed same sz now c idx) s _ q b e (
      del_indexed_books (length c.qname) c idx
        (find_cent-Accounted same sz c.qname c s.entries b.accounted e))

  purge_le-Books :
      (f : Cent → Option ℕ → Store → Store) (le : Lent) (s : Store)
      → IsEquivalence same
      → KeepsBooks f
      → Books sz s
      → Books sz (purge_le same sz now f le s)
  purge_le-Books f le s q k b = elim (Option-cases (find_cent same le.cent s.entries)) [
    | inl e ↦ rw (purge_le, e) b
    | inr (c, e) ↦
        rw (purge_le, e)
          (elim (Bool-cases (is_kept c le.idx)) [
            | inl h ↦ rw h b
            | inr h ↦ rw h (k c le.idx s b (find_cent-qname same le.cent c s.entries q e))
          ])
  ]

  walk_rrl-Books :
      (f : Cent → Option ℕ → Store → Store) (limit : Option ℕ) (l : List Lent) (s : Store)
      → IsEquivalence same
      → KeepsBooks f
      → Books sz s
      → Books sz (walk_rrl same sz now f limit l s)
  unfolding walk_rrl
  walk_rrl-Books f limit [] s q k b = b
  walk_rrl-Books f none (le ∷ l) s q k b =
      walk_rrl-Books f none l (purge_le same sz now f le s) q k (purge_le-Books f le s q k b)
  walk_rrl-Books f (some limit) (le ∷ l) s q k b = elim (Bool-cases (ltb limit s.cache_size)) [
    | inl h ↦
        rw (walk_rrl, h)
          (walk_rrl-Books f (some limit) l (purge_le same sz now f le s) q k
            (purge_le-Books f le s q k b))
    | inr h ↦ rw (walk_rrl, h) b
  ]

  sort_list-Books : (s : Store) → Books sz s → Books sz (sort_list same sz now s)
  sort_list-Books s b = elim (Bool-cases s.insert_sort) [
    | inl h ↦ simp (sort_list, h) b
    | inr h ↦ elim (Option-cases (sort_rrl (get_rrlent_ts same s.entries) s.rrset_l)) [
      | inl e ↦ simp (sort_list, h, e) b
      | inr (l, e) ↦
          simp (sort_list, h, e)
            (record { size = b.size; number = b.number; accounted = b.accounted })
    ]
  ]

  -- `purge_cache` keeps the books of the cache.
  pub purge_cache-Books :
      (limit : ℕ) (lazy : Bool) (s : Store)
      → IsEquivalence same
      → Books sz s
      → Books sz (purge_cache same sz now limit lazy s)
  unfolding purge_cache
  purge_cache-Books limit lazy s q b =
      let bound : Option ℕ = if lazy then some limit else none in
      let s1 = walk_rrl same sz now (purge_timed same sz now) bound s.rrset_l s in
      let b1 =
        walk_rrl-Books (purge_timed same sz now) bound s.rrset_l s q (purge_timed-Books q) b in
      let s2 = sort_list same sz now s1 in
      elim (Bool-cases (leb s1.cache_size limit)) [
        | inl h ↦ rw (purge_cache, h) b1
        | inr h ↦
            rw (purge_cache, h)
              (walk_rrl-Books (purge_old same sz now) (some limit) s2.rrset_l s2 q
                (purge_old-Books q) (sort_list-Books s1 b1))
      ]
