-- ===== src/Cache/Store/Look.antt =====
-- Looking names up in the whole cache (cache.c, `lookup_cache`, `getlocalowner`,
-- `lookup_cache_local_rrset`, `invalidate_record`, `set_cent_flags`; cache.h, `getrrset`,
-- `have_rr`). `none` is a read behind the end of the name, or a failed assertion of `rhncpy`. A copy
-- is modelled by its value, NULL by `none`.
use tor_android_service_arch.Cache.Cent.{Sizes, CentFlags, RrSet, Cent, slot, t_min, t_num}
use tor_android_service_arch.Cache.Cent.Copy.{copy_cent, copy_rrset}
use tor_android_service_arch.Cache.Cent.Purge.{invalidate_cent, set_cent_flags}
use tor_android_service_arch.Cache.Store.{Store, find_cent, write_cent, is_negative}
use tor_android_service_arch.Cache.Store.Purge.{Purges, removed, purged, no_records, purge_cent}
use tor_android_service_arch.Names.{Bytes, dnsnamebufsize, rhncpy}
use tor_android_service_arch.Prelude.{
  ℕ, zero, suc, ◌+◌, ◌-◌, Bool, true, false, ◌&&◌, not, ltb, leb, ◌==◌, if◌then◌else◌, List, [],
  ◌∷◌, Option, none, some, length, drop,
}

-- `*wild`; `no_wild` is 0.
pub data Wild : Type 0 where
  no_wild w_wild w_neg w_locnerr : Wild

pub record Hit : Type 0 where
  pub cent : Option Cent
  pub wild : Wild

-- What the part of `lookup_cache` under the read lock comes to: `retry` is `purge` not 0.
pub data Look : Type 0 where
  outside : Look
  retry : Look
  answer : Hit → Look

abbrev pub nothing : Hit
nothing = record { cent = none; wild = no_wild }

-- `*nm` is 0.
abbrev pub at_end : Bytes → Bool
at_end [] = true
at_end (lb ∷ nm) = lb == 0

-- The byte '*'.
abbrev pub asterisk : ℕ
asterisk = 42

-- `getrrset`; `rrlkuptab` is the table of rr_types.h.
abbrev pub getrrset : (rrlkuptab : ℕ → ℕ) → Cent → (type : ℕ) → Option RrSet
getrrset rrlkuptab c type =
    if leb t_min type && ltb (type - t_min) t_num then slot c (rrlkuptab (type - t_min)) else none

abbrev pub has_records : Option RrSet → Bool
has_records none = false
has_records (some s) = not (no_records s.rrs)

-- `have_rr`, for a type in range
abbrev pub have_rr : (rrlkuptab : ℕ → ℕ) → Cent → (type : ℕ) → Bool
have_rr rrlkuptab c type = has_records (slot c (rrlkuptab (type - t_min)))

module _ (same : Bytes → Bytes → Bool) where
  -- The entry for "*" at `nm`; `none` is also a write behind `buf`, of DNSNAMEBUFSIZE bytes.
  abbrev pub found_wild : Bytes → List Cent → Option Hit
  found_wild nm cs = elim (rhncpy nm) [
    | none ↦ none
    | some (copied, len) ↦
        if leb (2 + len) dnsnamebufsize
        then elim (find_cent same (1 ∷ asterisk ∷ copied) cs) [
          | none ↦ some nothing
          | some ce ↦ some (record { cent = some ce; wild = w_wild })
        ]
        else none
  ]

  -- What the entry of an ancestor `nm` stands for.
  abbrev pub found_above : Bytes → List Cent → Cent → Option Hit
  found_above nm cs c =
      if is_negative c.body
      then some (record { cent = some c; wild = w_neg })
      else if c.flags.wild
      then found_wild nm cs
      else if c.flags.local
      then some (record { cent = some c; wild = w_locnerr })
      else some nothing

  -- The body of the loop for a shorter name, where `rest` is what the loop goes on to.
  abbrev pub visit : Bytes → List Cent → Option Hit → Option Hit
  visit nm cs rest =
      if at_end nm
      then rest
      else elim (find_cent same nm cs) [ none ↦ rest | some c ↦ found_above nm cs c ]

  -- The loop `while(nm += lb+1, lb = *nm)`. The fuel is the length of the name.
  unfoldable pub search_up : ℕ → Bytes → List Cent → Option Hit
  search_up zero nm cs = none
  search_up (suc fuel) [] cs = none
  search_up (suc fuel) (lb ∷ nm) cs =
      let rest = search_up fuel (drop lb nm) cs in
      if lb == 0 then some nothing else visit (drop lb nm) cs rest

  -- The lookup of `lookup_cache`, the same under both locks; `wild` says whether it is not NULL.
  unfoldable pub search : (wild : Bool) → Bytes → List Cent → Option Hit
  unfolding search_up
  search wild name cs = elim (find_cent same name cs) [
    | some c ↦ some (record { cent = some c; wild = no_wild })
    | none ↦ if wild then search_up (length name) name cs else some nothing
  ]

  abbrev pub is_owner : (rrlkuptab : ℕ → ℕ) → (tp : ℕ) → Cent → Bool
  is_owner rrlkuptab tp c = c.flags.local && have_rr rrlkuptab c tp

  abbrev pub owner_at :
      (rrlkuptab : ℕ → ℕ)
      → (tp : ℕ) → Bytes
      → List Cent
      → Option (Option Bytes)
      → Option (Option Bytes)
  owner_at rrlkuptab tp nm cs rest = if at_end nm then rest else elim (find_cent same nm cs) [
    | none ↦ rest
    | some c ↦
        if not c.flags.local
        then some none
        else if have_rr rrlkuptab c tp
        then some (some nm)
        else rest
  ]

  unfoldable pub owner_from :
      (rrlkuptab : ℕ → ℕ) → (tp : ℕ) → (fuel : ℕ) → Bytes → List Cent → Option (Option Bytes)
  owner_from rrlkuptab tp zero nm cs = none
  owner_from rrlkuptab tp (suc fuel) [] cs = none
  owner_from rrlkuptab tp (suc fuel) (lb ∷ nm) cs =
      let rest = owner_from rrlkuptab tp fuel (drop lb nm) cs in
      if lb == 0 then some none else owner_at rrlkuptab tp (drop lb nm) cs rest

  -- `getlocalowner`: the rest of the name that the result points to.
  unfoldable pub getlocalowner :
      (rrlkuptab : ℕ → ℕ) → Bytes → (tp : ℕ) → Store → Option (Option Bytes)
  unfolding owner_from
  getlocalowner rrlkuptab name tp s = owner_from rrlkuptab tp (length name) name s.entries

  abbrev pub copied_local : List Bool → Option RrSet → Option RrSet
  copied_local os none = none
  copied_local os (some rrset) =
      if rrset.flags.local
      then elim (copy_rrset os rrset) [ none ↦ none | some (copy, os') ↦ some copy ]
      else none

  unfoldable pub lookup_cache_local_rrset :
      List Bool → (rrlkuptab : ℕ → ℕ) → Bytes → (type : ℕ) → Store → Option RrSet
  unfolding copy_rrset
  lookup_cache_local_rrset os rrlkuptab name type s = elim (find_cent same name s.entries) [
    | none ↦ none
    | some c ↦ copied_local os (getrrset rrlkuptab c type)
  ]

  -- A write to the entry of a name, if there is one.
  abbrev pub change_cent : Bytes → (Cent → Cent) → Store → Store
  change_cent name f s = elim (find_cent same name s.entries) [
    | none ↦ s
    | some c ↦ record s { entries = write_cent same name (f c) s.entries }
  ]

  unfoldable pub invalidate_record : Bytes → Store → Store
  unfolding invalidate_cent
  invalidate_record name s = change_cent name invalidate_cent s

  -- `set_cent_flags` on the cache; the result is whether the name was found.
  unfoldable pub set_flags : Bytes → CentFlags → Store → Bool × Store
  unfolding set_cent_flags
  set_flags name flags s = elim (set_cent_flags (find_cent same name s.entries) flags) [
    | none ↦ (false, s)
    | some c ↦ (true, record s { entries = write_cent same name c s.entries })
  ]

abbrev pub copied : List Bool → Cent → Wild → Hit
copied os c w = elim (copy_cent os c) [
  | none ↦ record { cent = none; wild = w }
  | some (copy, os') ↦ record { cent = some copy; wild = w }
]

-- `purge` is 0.
abbrev pub is_fresh : Purges → Bool
is_fresh removed = false
is_fresh (purged n) = n == 0

module _ (same : Bytes → Bytes → Bool) (sz : Sizes) (now : ℕ) where
  abbrev pub read_found : List Bool → Option Cent → Wild → Store → Look
  read_found os none w s = answer (record { cent = none; wild = w })
  read_found os (some c) w s =
      if is_fresh (purge_cent same sz now true true c s).0 then answer (copied os c w) else retry

  -- "First try with only read access to the cache."
  unfoldable pub lookup_read : List Bool → (wild : Bool) → Bytes → Store → Look
  unfolding search purge_cent
  lookup_read os wild name s = elim (search same wild name s.entries) [
    | none ↦ outside
    | some f ↦ read_found os f.cent f.wild s
  ]

  -- The purged entry, by its name, or NULL where the purge has removed it.
  abbrev pub after_purge : List Bool → Wild → Bytes → Purges → Store → Hit
  after_purge os w key removed s = record { cent = none; wild = w }
  after_purge os w key (purged n) s = elim (find_cent same key s.entries) [
    | none ↦ record { cent = none; wild = w }
    | some c ↦ copied os c w
  ]

  abbrev pub write_found : List Bool → Option Cent → Wild → Store → Hit × Store
  write_found os none w s = (record { cent = none; wild = w }, s)
  write_found os (some c) w s =
      let r = purge_cent same sz now true false c s in (after_purge os w c.qname r.0 r.1, r.1)

  -- The part under the write lock.
  unfoldable pub lookup_write : List Bool → (wild : Bool) → Bytes → Store → Option (Hit × Store)
  unfolding search purge_cent
  lookup_write os wild name s = elim (search same wild name s.entries) [
    | none ↦ none
    | some f ↦ some (write_found os f.cent f.wild s)
  ]

  -- `others` is what the other threads do to the cache between the two locks.
  unfoldable pub lookup_cache :
      List Bool → (wild : Bool) → Bytes → (others : Store → Store) → Store → Option (Hit × Store)
  unfolding lookup_read lookup_write
  lookup_cache os wild name others s = elim (lookup_read os wild name s) [
    | outside ↦ none
    | answer f ↦ some (f, s)
    | retry ↦ lookup_write os wild name (others s)
  ]
