-- ===== src/Cache/Store.antt =====
-- The whole cache (cache.c, the variables `rrset_l`, `cache_size`, `ent_num`, `insert_sort`, and the
-- operations that take entries out). The table is the list of its entries, looked up by name; that
-- the hash table is such a map is shown in Hash/Table.antt. A pointer to an entry is its name. A name
-- in the cache is well formed; its bytes are exactly those of the transport format.
pub mod Purge
pub mod Adding
pub mod Add
pub mod Look
pub mod Books
pub mod Timely
pub mod Above
pub mod Found
pub mod Tested
pub mod Fresh
pub mod Entry
pub mod Shrunk
pub mod Kept
pub mod Filled
pub mod Grown
mod Tests
use tor_android_service_arch.Cache.Cent.{Sizes, RrSet, Body, neg, rr, Cent, slot}
use tor_android_service_arch.Cache.Cent.Records.{free_cent}
use tor_android_service_arch.Names.{Bytes}
use tor_android_service_arch.Prelude.{
  ℕ, zero, suc, ◌+◌, ◌-◌, Bool, true, false, not, ◌==◌, if◌then◌else◌, List, [], ◌∷◌, ◌++◌, Option,
  none, some,
}

-- `rr_lent_t`: `id` stands for its address, `idx` is `none` for an entry of a negative domain.
pub record Lent : Type 0 where
  pub id : ℕ
  pub cent : Bytes
  pub idx : Option ℕ

-- `fresh` is an address that `malloc` has not given out.
pub record Store : Type 0 where
  pub entries : List Cent
  pub rrset_l : List Lent
  pub fresh : ℕ
  pub cache_size : ℕ
  pub ent_num : ℕ
  pub insert_sort : Bool

-- `remove_rrl`
abbrev pub remove_rrl : ℕ → List Lent → List Lent
remove_rrl id [] = []
remove_rrl id (le ∷ l) = if le.id == id then l else le ∷ remove_rrl id l

abbrev pub remove_all : List ℕ → List Lent → List Lent
remove_all [] l = l
remove_all (id ∷ ids) l = remove_all ids (remove_rrl id l)

-- `rhnicmp(a, b)`
module _ (same : Bytes → Bytes → Bool) where
  abbrev pub find_cent : Bytes → List Cent → Option Cent
  find_cent key [] = none
  find_cent key (c ∷ cs) = if same key c.qname then some c else find_cent key cs

  -- A write through the pointer that `find_cent` gives.
  abbrev pub write_cent : Bytes → Cent → List Cent → List Cent
  write_cent key c' [] = []
  write_cent key c' (c ∷ cs) = if same key c.qname then c' ∷ cs else c ∷ write_cent key c' cs

  abbrev pub remove_cent : Bytes → List Cent → List Cent
  remove_cent key [] = []
  remove_cent key (c ∷ cs) = if same key c.qname then cs else c ∷ remove_cent key cs

abbrev pub set_ts : Option RrSet → ℕ
set_ts none = 0
set_ts (some s) = s.ts

abbrev pub neg_ts : Body → ℕ
neg_ts (neg lent ttl ts) = ts
neg_ts (rr mu ext) = 0

-- `get_rrlent_ts`, for an entry of `cs`
abbrev pub lent_ts : Cent → Option ℕ → ℕ
lent_ts c none = neg_ts c.body
lent_ts c (some i) = set_ts (slot c i)

module _ (same : Bytes → Bytes → Bool) where
  abbrev pub get_rrlent_ts : List Cent → Lent → ℕ
  get_rrlent_ts cs le = elim (find_cent same le.cent cs) [ none ↦ 0 | some c ↦ lent_ts c le.idx ]

-- `del_cent`
unfoldable pub del_cent : Sizes → Cent → Store → Store
unfolding free_cent
del_cent sz c s = record s {
  rrset_l = remove_all (free_cent sz c) s.rrset_l;
  cache_size = s.cache_size - c.cs;
  ent_num = s.ent_num - 1;
}

module _ (same : Bytes → Bytes → Bool) (sz : Sizes) where
  -- `del_cache_ent`: the entry is found by its name, or at the location of its lookup.
  unfoldable pub del_cache_ent : Cent → Store → Store
  unfolding del_cent
  del_cache_ent c s = del_cent sz c (record s { entries = remove_cent same c.qname s.entries })

  unfoldable pub del_cache : Bytes → Store → Store
  unfolding del_cent
  del_cache name s = elim (find_cent same name s.entries) [
    | none ↦ s
    | some c ↦ del_cent sz c (record s { entries = remove_cent same name s.entries })
  ]

abbrev pub is_negative : Body → Bool
is_negative (neg lent ttl ts) = true
is_negative (rr mu ext) = false
