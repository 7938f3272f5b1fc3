-- ===== src/Cache/Store/Purge.antt =====
-- Purging the cache (cache.c, `purge_cent`, `purge_cache`).
use tor_android_service_arch.Cache.Cent.{
  Sizes, RrSet, Body, neg, rr, Cent, slot, del_cent_rrset_by_index,
}
use tor_android_service_arch.Cache.Cent.Purge.{Purged, purge_rrset, purge_all_rrsets}
use tor_android_service_arch.Cache.Cent.Ttl.{clat_adj, timedout}
use tor_android_service_arch.Cache.Rrl.{sort_rrl}
use tor_android_service_arch.Cache.Store.{
  Lent, Store, remove_all, find_cent, write_cent, get_rrlent_ts, del_cache_ent, is_negative,
}
use tor_android_service_arch.Names.{Bytes, rhnsegcnt, skipsegs}
use tor_android_service_arch.Prelude.{
  ℕ, ◌+◌, ◌-◌, Bool, true, false, ◌&&◌, ◌||◌, not, ltb, leb, ◌==◌, if◌then◌else◌, List, [], ◌∷◌,
  Option, none, some,
}

-- RRMUINDEX_NS and RRMUINDEX_SOA of rr_types.h
abbrev pub rrmuindex_ns : ℕ
rrmuindex_ns = 1

abbrev pub rrmuindex_soa : ℕ
rrmuindex_soa = 3

-- The names of the cache are well formed, so that these do not leave them.
abbrev pub segcnt : Bytes → ℕ
segcnt name = elim (rhnsegcnt name) [ none ↦ 0 | some n ↦ n ]

abbrev pub skip : Bytes → ℕ → Bytes
skip name k = elim (skipsegs name k) [ none ↦ [] | some n ↦ n ]

abbrev pub timedout_nxdom : (now : ℕ) → Body → Bool
timedout_nxdom now (neg lent ttl ts) = ltb (ts + clat_adj ttl) now
timedout_nxdom now (rr mu ext) = false

-- The result of `purge_cent`: -1 is `removed`.
pub data Purges : Type 0 where
  removed : Purges
  purged : ℕ → Purges

abbrev pub no_records : List Bytes → Bool
no_records [] = true
no_records (r ∷ rrs) = false

-- `!rrset || !rrset->rrs || (!(rrset->flags&CF_LOCAL) && timedout(rrset))`
abbrev pub is_stale : (now : ℕ) → Option RrSet → Bool
is_stale now none = true
is_stale now (some s) = no_records s.rrs || (not s.flags.local && timedout now s)

-- No sets, and not negative, or negative and timed out.
abbrev pub is_used_up : (now : ℕ) → Cent → Bool
is_used_up now c = not (is_negative c.body) || (not c.flags.local && timedout_nxdom now c.body)

-- "Set stale references to NS or SOA records back to undefined."
abbrev pub drop_refs : (test ns soa : Bool) → Cent → Cent
drop_refs true ns soa c = c
drop_refs false ns soa c = record c {
  c_ns = if ns then none else c.c_ns;
  c_soa = if soa then none else c.c_soa;
}

abbrev pub count_true : Bool → ℕ
count_true b = if b then 1 else 0

abbrev pub local_set : Option RrSet → Bool
local_set none = false
local_set (some s) = s.flags.local

-- `(le->rrset && (le->rrset->flags&CF_LOCAL)) || (le->cent->flags&DF_LOCAL)`
abbrev pub is_kept : Cent → Option ℕ → Bool
is_kept c none = c.flags.local
is_kept c (some i) = local_set (slot c i) || c.flags.local

module _ (same : Bytes → Bytes → Bool) where
  -- The entry `c` with its sets purged, and the cache with it.
  abbrev pub after_sets : Cent → Purged → Store → Store
  after_sets c p s = record s {
    entries = write_cent same c.qname p.cent s.entries;
    rrset_l = remove_all p.unlinked s.rrset_l;
    cache_size = s.cache_size - p.freed;
  }

module _ (same : Bytes → Bytes → Bool) (sz : Sizes) (now : ℕ) where
  -- The set that `c_ns` or `c_soa` refers to.
  abbrev pub referred : Cent → (idx : ℕ) → (count : ℕ) → List Cent → Option RrSet
  referred c idx count cs =
      if count == segcnt c.qname
      then slot c idx
      else if ltb count (segcnt c.qname)
      then elim (find_cent same (skip c.qname (segcnt c.qname - count)) cs) [
        | none ↦ none
        | some ce ↦ slot ce idx
      ]
      else none

  -- Is the reference set and stale?
  abbrev pub stale_ref : Cent → (idx : ℕ) → Option ℕ → List Cent → Bool
  stale_ref c idx none cs = false
  stale_ref c idx (some count) cs = is_stale now (referred c idx count cs)

  -- "If the cache entry was purged empty, delete it from the cache."
  abbrev pub unless_test : (test : Bool) → Cent → Store → Store
  unless_test true c s = s
  unless_test false c s = del_cache_ent same sz c s

  -- What follows the purge of the sets.
  unfoldable pub purge_finish :
      (delete test : Bool) → Bytes → Cent → (numrrs rv : ℕ) → Store → Purges × Store
  unfolding del_cache_ent
  purge_finish delete test key c numrrs rv s =
      let ns = stale_ref c rrmuindex_ns c.c_ns s.entries in
      let soa = stale_ref c rrmuindex_soa c.c_soa s.entries in
      if delete && (numrrs == 0 && is_used_up now c)
      then (removed, unless_test test c s)
      else if c.flags.local
      then (purged rv, s)
      else (
        purged (rv + count_true ns + count_true soa),
        record s { entries = write_cent same key (drop_refs test ns soa c) s.entries },
      )

  unfoldable pub purge_cent : (delete test : Bool) → Cent → Store → Purges × Store
  unfolding purge_all_rrsets purge_finish
  purge_cent delete test c s =
      let p = purge_all_rrsets sz now test c in
      purge_finish delete test c.qname p.cent p.numrrs p.rv (after_sets same c p s)

  -- `purge_rrset(ce, le->idx, 0)`
  abbrev pub purge_indexed : Cent → Option ℕ → Purged
  purge_indexed c none = record {
    rv = 0;
    numrrs = 0;
    numrrext = 0;
    cent = c;
    freed = 0;
    unlinked = [];
  }
  purge_indexed c (some i) = purge_rrset sz now false c i

  -- The body of the first loop of `purge_cache`.
  abbrev pub purge_timed : Cent → Option ℕ → Store → Store
  purge_timed c idx s =
      let p = purge_indexed c idx in
      let s' = after_sets same c p s in
      if p.cent.num_rrs == 0 && is_used_up now p.cent then del_cache_ent same sz p.cent s' else s'

  -- `del_cent_rrset_by_index(ce, le->idx)`
  abbrev pub del_indexed : Cent → Option ℕ → Purged
  del_indexed c none = record {
    rv = 0;
    numrrs = 0;
    numrrext = 0;
    cent = c;
    freed = 0;
    unlinked = [];
  }
  del_indexed c (some i) =
      let r = del_cent_rrset_by_index sz c i in
      record {
        rv = 0;
        numrrs = 0;
        numrrext = 0;
        cent = r.cent;
        freed = r.ret;
        unlinked = r.unlinked;
      }

  -- The body of the second loop.
  abbrev pub purge_old : Cent → Option ℕ → Store → Store
  purge_old c idx s =
      let p = del_indexed c idx in
      let s' = after_sets same c p s in
      if p.cent.num_rrs == 0 then del_cache_ent same sz p.cent s' else s'

  abbrev pub purge_le : (Cent → Option ℕ → Store → Store) → Lent → Store → Store
  purge_le f le s = elim (find_cent same le.cent s.entries) [
    | none ↦ s
    | some c ↦ if is_kept c le.idx then s else f c le.idx s
  ]

  -- A walk over the list as it stood at the beginning: each round takes at most its own element out.
  unfoldable pub walk_rrl :
      (Cent → Option ℕ → Store → Store) → (limit : Option ℕ) → List Lent → Store → Store
  unfolding del_cache_ent
  walk_rrl f limit [] s = s
  walk_rrl f none (le ∷ l) s = walk_rrl f none l (purge_le f le s)
  walk_rrl f (some limit) (le ∷ l) s =
      let next = walk_rrl f (some limit) l (purge_le f le s) in
      if ltb limit s.cache_size then next else s

  -- `if(!insert_sort) { sort_rrl(); insert_sort=1; }`; the sort fails only by an assertion.
  abbrev pub sort_list : Store → Store
  sort_list s =
      if s.insert_sort then s else elim (sort_rrl (get_rrlent_ts same s.entries) s.rrset_l) [
        | none ↦ s
        | some l ↦ record s { rrset_l = l; insert_sort = true }
      ]

  unfoldable pub purge_cache : (limit : ℕ) → (lazy : Bool) → Store → Store
  unfolding walk_rrl
  purge_cache limit lazy s =
      let s1 = walk_rrl purge_timed (if lazy then some limit else none) s.rrset_l s in
      let s2 = sort_list s1 in
      if leb s1.cache_size limit then s1 else walk_rrl purge_old (some limit) s2.rrset_l s2
