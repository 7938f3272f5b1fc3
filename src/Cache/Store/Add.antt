-- ===== src/Cache/Store/Add.antt =====
-- Adding an entry to the cache (cache.c, `add_cache`), with the parameters of Adding.antt.
use tor_android_service_arch.Cache.Cent.{Sizes, Cent, rrarr_len}
use tor_android_service_arch.Cache.Cent.Copy.{copy_cent}
use tor_android_service_arch.Cache.Cent.Records.{free_cent}
use tor_android_service_arch.Cache.Cent.Ttl.{Global}
use tor_android_service_arch.Cache.Store.{
  Store, remove_all, find_cent, write_cent, del_cache_ent, is_negative,
}
use tor_android_service_arch.Cache.Store.Purge.{purge_cent, purge_cache}
use tor_android_service_arch.Names.{Bytes}
use tor_android_service_arch.Prelude.{
  ℕ, ◌+◌, ◌-◌, ◌*◌, Bool, true, false, ◌&&◌, not, ◌==◌, if◌then◌else◌, List, ◌∷◌, Option, none,
  some,
}
use tor_android_service_arch.Cache.Store.Adding.{
  Adding, Added, first_outcome, or_auth_wild, larger_ref, has_local, list_new, replace_sets,
  continue, stopped,
}

abbrev pub mcsz : ℕ
mcsz = 10240

module _ (same : Bytes → Bytes → Bool) (sz : Sizes) (excludes : ℕ → ℕ → Bool) (g : Global)
    (perm_cache now : ℕ) where
  unfoldable pub purge_return : Store → Store
  unfolding purge_cache
  purge_return s = purge_cache same sz now (perm_cache * 1024 + mcsz) true s

  -- `free_cent(ce)` where the entry cannot be added
  abbrev pub give_up : Adding → Store → Store
  give_up st s = record s { rrset_l = remove_all (free_cent sz st.ce) st.rrl; fresh = st.fresh }

  abbrev pub finish_new : Added → Store → Store
  finish_new (stopped st) s = give_up st s
  finish_new (continue st) s =
      if first_outcome st.outcomes
      then purge_return (record s {
        entries = st.ce ∷ s.entries;
        rrset_l = st.rrl;
        fresh = st.fresh;
        ent_num = s.ent_num + 1;
        cache_size = s.cache_size + st.ce.cs;
      })
      else give_up st s

  abbrev pub list_copy : Option (Cent × List Bool) → Store → Store
  list_copy none s = s
  list_copy (some (ce, os)) s =
      finish_new
        (list_new same g s.insert_sort s.entries
          (record { ce = ce; rrl = s.rrset_l; fresh = s.fresh; outcomes = os }))
        s

  -- The name is not in the cache.
  unfoldable pub add_new : List Bool → Cent → Store → Store
  unfolding purge_return list_new
  add_new os cent s =
      if cent.num_rrs == 0 && not (is_negative cent.body)
      then purge_return s
      else list_copy (copy_cent os cent) s

  -- The entry with its new sets, written back.
  abbrev pub write_back : Bytes → Adding → Cent → Store → Store
  write_back key st ce s = record s {
    entries = write_cent same key ce s.entries;
    rrset_l = st.rrl;
    fresh = st.fresh;
    cache_size = s.cache_size + ce.cs;
  }

  abbrev pub merged : Cent → Cent → Cent
  merged cent ce = record ce {
    flags = or_auth_wild ce.flags cent.flags;
    c_ns = larger_ref ce.c_ns cent.c_ns;
    c_soa = larger_ref ce.c_soa cent.c_soa;
  }

  abbrev pub finish_old : Bytes → Cent → Added → Store → Store
  finish_old key cent (stopped st) s = write_back key st st.ce s
  finish_old key cent (continue st) s = purge_return (write_back key st (merged cent st.ce) s)

  -- The purged entry `ce` gets the sets of the new one.
  abbrev pub merge_old : List Bool → Cent → Option Cent → Store → Store
  merge_old os cent none s = s
  merge_old os cent (some ce) s =
      finish_old ce.qname cent
        (replace_sets same sz excludes g now s.insert_sort s.entries (rrarr_len cent.body) 0 cent
          (record { ce = ce; rrl = s.rrset_l; fresh = s.fresh; outcomes = os }))
        (record s { cache_size = s.cache_size - ce.cs })

  -- The name is in the cache, at the entry `ce`. Behind `goto retry` the lookup finds nothing: no
  -- name is in the table twice.
  unfoldable pub add_old : List Bool → Cent → Cent → Store → Store
  unfolding replace_sets purge_return add_new
  add_old os cent ce s =
      let s1 = (purge_cent same sz now false false ce s).1 in
      if is_negative cent.body
      then (if has_local (rrarr_len ce.body) 0 ce
          then s
          else add_new os cent (del_cache_ent same sz ce s))
      else merge_old os cent (find_cent same ce.qname s1.entries) s1

  unfoldable pub add_cache : List Bool → Cent → Store → Store
  unfolding add_new add_old
  add_cache os cent s = elim (find_cent same cent.qname s.entries) [
    | none ↦ add_new os cent s
    | some ce ↦ add_old os cent ce s
  ]
