-- ===== src/Hash.antt =====
-- The hash table of the cache (hash.c, hash.h). The pointers `dns_cent_t *` are an abstract type
-- `D`, of which only `qname` is read; the names are an interface `Keys`, for which the code has
-- `dns_hash` and `rhnicmp`. A bucket is the list of its entries, and a pointer `pos`
-- to a link of it is the number of entries before the link.
pub mod Key
pub mod Chain
pub mod Table
pub mod Names
pub mod NameKeys
pub mod NameTable
mod Tests
use tor_android_service_arch.Hash.Key.{Keys, hash_num_buckets}
use tor_android_service_arch.Prelude.{
  ℕ, zero, suc, ◌+◌, Bool, true, false, ◌&&◌, ◌||◌, not, leb, ltb, ◌==◌, if◌then◌else◌, List, [],
  ◌∷◌, ◌++◌, Option, none, some, length, get_or, set, replicate,
}

pub record HashEnt (D : Type 0) : Type 0 where
  pub rhash : ℕ
  pub payload : D

-- `dns_hash_loc_t`, with the bucket that `pos` points into
pub record HashLoc : Type 0 where
  pub bucket : ℕ
  pub pos : ℕ
  pub rhash : ℕ

abbrev pub Buckets : Type 0 → Type 0
Buckets D = List (List (HashEnt D))

unfoldable pub mk_dns_hash : {D : Type 0} → Buckets D
mk_dns_hash = replicate hash_num_buckets []

-- The link at `pos` is set to a new entry that leads to what it led to.
unfoldable pub insert_at {ℓ} : {A : Type ℓ} → ℕ → A → List A → List A
insert_at zero a c = a ∷ c
insert_at (suc pos) a [] = a ∷ []
insert_at (suc pos) a (e ∷ c) = e ∷ insert_at pos a c

-- `none` is a dereference of a null link.
unfoldable pub remove_at {ℓ} : {A : Type ℓ} → ℕ → List A → Option (A × List A)
remove_at pos [] = none
remove_at zero (e ∷ c) = some (e, c)
remove_at (suc pos) (e ∷ c) = elim (remove_at pos c) [ none ↦ none | some (a, d) ↦ some (a, e ∷ d) ]

-- A rule of an include/exclude list.
pub record Slist (K : Type 0) : Type 0 where
  pub domain : K
  pub exact : Bool
  pub included : Bool

-- `fetch_first` and `fetch_next`: the bucket, and the entries from `ent` on.
pub record HashPos (D : Type 0) : Type 0 where
  pub bucket : ℕ
  pub ent : List (HashEnt D)

payloads : {D : Type 0} → List (HashEnt D) → List D
payloads [] = []
payloads (he ∷ c) = he.payload ∷ payloads c

-- The first component holds the entries that `del_cent` is called on, in order.
unfoldable pub free_dns_hash_bucket : {D : Type 0} → ℕ → Buckets D → List D × Buckets D
unfolding payloads
free_dns_hash_bucket i bs = (payloads (get_or bs i []), set bs i [])

unfoldable pub free_dns_hash : {D : Type 0} → Buckets D → List D × Buckets D
unfolding payloads
free_dns_hash [] = ([], [])
free_dns_hash (c ∷ bs) = let r = free_dns_hash bs in (payloads c ++ r.0, [] ∷ r.1)

-- `allocated` is the outcome of `malloc`; `none` is the return value 0.
unfoldable pub add_dns_hash :
    {D : Type 0} (allocated : Bool) → D → HashLoc → Buckets D → Option (Buckets D)
unfolding insert_at
add_dns_hash allocated d loc bs =
    if allocated
    then some (
        set bs loc.bucket
          (insert_at loc.pos (record { rhash = loc.rhash; payload = d }) (get_or bs loc.bucket [])))
    else none

-- `none` is a null dereference.
unfoldable pub del_dns_hash_ent : {D : Type 0} → HashLoc → Buckets D → Option (D × Buckets D)
unfolding remove_at
del_dns_hash_ent loc bs = elim (remove_at loc.pos (get_or bs loc.bucket [])) [
  | none ↦ none
  | some (he, c) ↦ some (he.payload, set bs loc.bucket c)
]

module _ {K D : Type 0} (keys : Keys K) (qname : D → K) where
  open keys use {idx, rhash, same}

  -- The loop of `dns_lookup`, from a link on: what it finds, and how many links it moves on.
  unfoldable pub scan : K → List (HashEnt D) → Option D × ℕ
  scan key [] = (none, 0)
  scan key (he ∷ c) =
      let rest = scan key c in
      if leb he.rhash (rhash key)
      then (if he.rhash == rhash key && same key (qname he.payload)
          then (some he.payload, 0)
          else (rest.0, suc rest.1))
      else (none, 0)

  unfoldable pub dns_lookup : K → Buckets D → Option D × HashLoc
  unfolding scan
  dns_lookup key bs =
      let r = scan key (get_or bs (idx key) []) in
      (r.0, record { bucket = idx key; pos = r.1; rhash = rhash key })

  -- The loop of `del_dns_hash`.
  unfoldable pub scan_del : K → List (HashEnt D) → Option D × List (HashEnt D)
  scan_del key [] = (none, [])
  scan_del key (he ∷ c) =
      let rest = scan_del key c in
      if leb he.rhash (rhash key)
      then (if he.rhash == rhash key && same key (qname he.payload)
          then (some he.payload, c)
          else (rest.0, he ∷ rest.1))
      else (none, he ∷ c)

  unfoldable pub del_dns_hash : K → Buckets D → Option D × Buckets D
  unfolding scan_del
  del_dns_hash key bs = let r = scan_del key (get_or bs (idx key) []) in (r.0, set bs (idx key) r.1)

  -- `rem` is `domain_match`: the lengths of what is left of the name and of the rule's domain.
  -- The loop over the rules: does the first one that applies include the name?
  unfoldable pub selects : (rem : K → K → ℕ × ℕ) → K → List (Slist K) → Bool
  selects rem name [] = false
  selects rem name (sl ∷ sla) =
      let r = rem name sl.domain in
      let rest = selects rem name sla in
      if r.1 == 0 && (not sl.exact || r.0 == 0) then sl.included else rest

  delete_selected :
      (rem : K → K → ℕ × ℕ) → List (Slist K) → List (HashEnt D) → List D × List (HashEnt D)
  delete_selected rem sla [] = ([], [])
  delete_selected rem sla (he ∷ c) =
      let rest = delete_selected rem sla c in
      if selects rem (qname he.payload) sla
      then (he.payload ∷ rest.0, rest.1)
      else (rest.0, he ∷ rest.1)

  unfoldable pub free_dns_hash_selected :
      (rem : K → K → ℕ × ℕ) → ℕ → List (Slist K) → Buckets D → List D × Buckets D
  unfolding delete_selected selects
  free_dns_hash_selected rem i sla bs =
      let r = delete_selected rem sla (get_or bs i []) in (r.0, set bs i r.1)

-- `for (i=…; i<HASH_NUM_BUCKETS; i++)`: the first entry in the buckets from `i` on.
unfoldable pub fetch_from : {D : Type 0} → ℕ → Buckets D → Option (D × HashPos D)
fetch_from i [] = none
fetch_from i ([] ∷ bs) = fetch_from (i + 1) bs
fetch_from i ((he ∷ c) ∷ bs) = some (he.payload, record { bucket = i; ent = c })

unfoldable pub fetch_first : {D : Type 0} → Buckets D → Option (D × HashPos D)
unfolding fetch_from
fetch_first bs = fetch_from 0 bs

buckets_from : {D : Type 0} → ℕ → Buckets D → Buckets D
buckets_from zero bs = bs
buckets_from (suc i) [] = []
buckets_from (suc i) (c ∷ bs) = buckets_from i bs

-- `pos->ent`, or else the buckets behind `pos->bucket`
fetch_after : {D : Type 0} → Buckets D → ℕ → List (HashEnt D) → Option (D × HashPos D)
unfolding fetch_from buckets_from
fetch_after bs bucket (he ∷ c) = some (he.payload, record { bucket = bucket; ent = c })
fetch_after bs bucket [] = fetch_from (bucket + 1) (buckets_from (bucket + 1) bs)

unfoldable pub fetch_next : {D : Type 0} → Buckets D → HashPos D → Option (D × HashPos D)
unfolding fetch_after
fetch_next bs pos = fetch_after bs pos.bucket pos.ent
