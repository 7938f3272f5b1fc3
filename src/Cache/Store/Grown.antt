-- ===== src/Cache/Store/Grown.antt =====
-- Adding an entry keeps the books of the cache.
use mathlib.Core.Path.{subst}
use tor_android_service_arch.Cache.Cent.{Sizes, Cent, rrarr_len}
use tor_android_service_arch.Cache.Cent.Accounts.{Accounted}
use tor_android_service_arch.Cache.Cent.Copy.{copy_cent, copy_cent-forget}
use tor_android_service_arch.Cache.Cent.Ttl.{Global}
use tor_android_service_arch.Cache.Store.{Store, find_cent, is_negative}
use tor_android_service_arch.Cache.Store.Adding.{
  Adding, Added, continue, stopped, first_outcome, has_local,
}
use tor_android_service_arch.Cache.Store.Add.{
  purge_return, give_up, finish_new, add_new, write_back, merged, finish_old, merge_old, add_old,
  add_cache, mcsz,
}
use tor_android_service_arch.Cache.Store.Books.{
  Books, total_cs-write_cent, length-write_cent, total_cs-remove_cent, find_cent-qname,
  find_cent-Accounted, AllAccounted-write_cent, del_cache_ent-Books,
}
use tor_android_service_arch.Cache.Store.Filled.{GoodAdded, list_new-Good, replace_sets-Good}
use tor_android_service_arch.Cache.Store.Kept.{forget-Accounted, rrarr_len_bounds}
use tor_android_service_arch.Cache.Store.Shrunk.{purge_cent-Books, purge_cache-Books}
use tor_android_service_arch.Names.{Bytes}
use tor_android_service_arch.Names.Same.{IsEquivalence}
use tor_android_service_arch.Prelude.{
  ℕ, ◌+◌, ◌-◌, ◌*◌, ◌≡◌, refl, sym, ap, ◌∙◌, arith, Bool, true, false, ◌&&◌, not, ◌==◌,
  if◌then◌else◌, List, some, length, Bool-cases, Option-cases, inl, inr,
}

module _ (same : Bytes → Bytes → Bool) (sz : Sizes) (excludes : ℕ → ℕ → Bool) (g : Global)
    (perm_cache now : ℕ) where
  if-Books : (t : Bool) (s s' : Store) → Books sz s → Books sz s' → Books sz (if t then s else s')
  if-Books true s s' b b' = b
  if-Books false s s' b b' = b'

  purge_return-Books :
      (s : Store)
      → IsEquivalence same
      → Books sz s
      → Books sz (purge_return same sz excludes g perm_cache now s)
  unfolding purge_return
  purge_return-Books s q b = purge_cache-Books same sz now (perm_cache * 1024 + mcsz) true s q b

  give_up-Books :
      (st : Adding) (s : Store)
      → Books sz s
      → Books sz (give_up same sz excludes g perm_cache now st s)
  give_up-Books st s b = record { size = b.size; number = b.number; accounted = b.accounted }

  finish_new-Books :
      (key : Bytes) (r : Added) (s : Store)
      → IsEquivalence same
      → Books sz s
      → GoodAdded sz (length key) key r
      → Books sz (finish_new same sz excludes g perm_cache now r s)
  finish_new-Books key (stopped st) s q b k = give_up-Books st s b
  finish_new-Books key (continue st) s q b (a, n) = elim (Bool-cases (first_outcome st.outcomes)) [
    | inl o ↦ rw o (
        purge_return-Books _ q (record {
          size = omega (arith, b.size);
          number = omega (arith, b.number);
          accounted =
              (subst (λ (name : Bytes). Accounted sz (length name) st.ce) (sym n) a, b.accounted);
        }))
    | inr o ↦ rw o (give_up-Books st s b)
  ]

  add_new-Books :
      (os : List Bool) (cent : Cent) (s : Store)
      → IsEquivalence same
      → Books sz s
      → Accounted sz (length cent.qname) cent
      → Books sz (add_new same sz excludes g perm_cache now os cent s)
  unfolding add_new
  add_new-Books os cent s q b a =
      elim (Bool-cases (cent.num_rrs == 0 && not (is_negative cent.body))) [
        | inl e ↦ rw (add_new, e) (purge_return-Books s q b)
        | inr e ↦
            rw (add_new, e)
              (elim (Option-cases (copy_cent os cent)) [
                | inl c ↦ rw c b
                | inr ((ce, os'), c) ↦
                    let f = copy_cent-forget os os' cent ce c in
                    rw c (
                      finish_new-Books cent.qname _ s q b (
                        list_new-Good sz (length cent.qname) cent.qname same g s.insert_sort
                          s.entries _
                          (
                            subst (Accounted sz (length cent.qname)) (sym f)
                                (forget-Accounted sz (length cent.qname) cent a),
                            ap (λ (d : Cent). d.qname) f,
                          )))
              ])
      ]

  -- The entry `ce0` of the cache replaced by `ce`, of the same name.
  write_back-Books :
      (key : Bytes) (st : Adding) (ce0 ce : Cent) (s : Store)
      → Books sz s
      → find_cent same key s.entries ≡ some ce0
      → Accounted sz (length ce.qname) ce
      → Books sz (
          write_back same sz excludes g perm_cache now key st ce
            (record s { cache_size = s.cache_size - ce0.cs }))
  write_back-Books key st ce0 ce s b e a =
      let (size, _) = total_cs-remove_cent same key ce0 s.entries e in
      let size' = total_cs-write_cent same key ce0 ce s.entries e in
      record {
        size = omega (arith, b.size, size, size');
        number = b.number ∙ sym (length-write_cent same key ce s.entries);
        accounted = AllAccounted-write_cent same sz key ce s.entries b.accounted a;
      }

  finish_old-Books :
      (cent ce0 : Cent) (r : Added) (s : Store)
      → IsEquivalence same
      → Books sz s
      → find_cent same ce0.qname s.entries ≡ some ce0
      → GoodAdded sz (length ce0.qname) ce0.qname r
      → Books sz (
          finish_old same sz excludes g perm_cache now ce0.qname cent r
            (record s { cache_size = s.cache_size - ce0.cs }))
  finish_old-Books cent ce0 (stopped st) s q b e (a, n) =
      write_back-Books ce0.qname st ce0 st.ce s b e
        (subst (λ (name : Bytes). Accounted sz (length name) st.ce) (sym n) a)
  finish_old-Books cent ce0 (continue st) s q b e (a, n) =
      let a' = subst (λ (name : Bytes). Accounted sz (length name) st.ce) (sym n) a in
      purge_return-Books _ q (
        write_back-Books ce0.qname st ce0 (merged same sz excludes g perm_cache now cent st.ce) s b
          e (record { shaped = a'.shaped; size = a'.size; count = a'.count }))

  merge_old-Books :
      (os : List Bool) (cent : Cent) (key : Bytes) (s : Store)
      → IsEquivalence same
      → Books sz s
      → Books sz
          (merge_old same sz excludes g perm_cache now os cent (find_cent same key s.entries) s)
  merge_old-Books os cent key s q b = elim (Option-cases (find_cent same key s.entries)) [
    | inl e ↦ rw e b
    | inr (ce, e) ↦
        let e' = find_cent-qname same key ce s.entries q e in
        let a = find_cent-Accounted same sz ce.qname ce s.entries b.accounted e' in
        rw e (
          finish_old-Books cent ce _ s q b e' (
            replace_sets-Good sz (length ce.qname) ce.qname same excludes g now s.insert_sort
              s.entries (rrarr_len cent.body) 0 cent _
              (omega (arith, rrarr_len_bounds sz cent.body)) (a, refl)))
  ]

  add_old-Books :
      (os : List Bool) (cent ce : Cent) (s : Store)
      → IsEquivalence same
      → Books sz s
      → find_cent same ce.qname s.entries ≡ some ce
      → Accounted sz (length cent.qname) cent
      → Books sz (add_old same sz excludes g perm_cache now os cent ce s)
  unfolding add_old
  add_old-Books os cent ce s q b e a =
      if-Books (is_negative cent.body) _ _
        (if-Books (has_local (rrarr_len ce.body) 0 ce) _ _ b
          (add_new-Books os cent _ q (del_cache_ent-Books same sz ce s b e) a))
        (merge_old-Books os cent ce.qname _ q (purge_cent-Books same sz now false false ce s q b e))

  -- Adding an entry that is well accounted keeps the books of the cache, whether or not its name is
  -- there already, and whichever of the calls of `malloc` fail.
  pub add_cache-Books :
      (os : List Bool) (cent : Cent) (s : Store)
      → IsEquivalence same
      → Books sz s
      → Accounted sz (length cent.qname) cent
      → Books sz (add_cache same sz excludes g perm_cache now os cent s)
  unfolding add_cache
  add_cache-Books os cent s q b a = elim (Option-cases (find_cent same cent.qname s.entries)) [
    | inl e ↦ rw (add_cache, e) (add_new-Books os cent s q b a)
    | inr (ce, e) ↦
        rw (add_cache, e)
          (add_old-Books os cent ce s q b (find_cent-qname same cent.qname ce s.entries q e) a)
  ]
