-- ===== src/Hash/Table.antt =====
-- The table as a map from names to cache entries.
use native.Mathlib.Decide.{ℕ_discrete}
use tor_android_service_arch.Hash.{
  HashEnt, Buckets, mk_dns_hash, insert_at, scan, scan_del, dns_lookup, add_dns_hash, del_dns_hash,
}
use tor_android_service_arch.Hash.Chain.{
  IsChain, find, scan-find, insert_at-IsChain, find-insert_at, scan_del-find, find-scan_del,
  scan_del-IsChain,
}
use tor_android_service_arch.Hash.Key.{Keys, hash_num_buckets}
use tor_android_service_arch.Prelude.{
  ℕ, ◌<◌, ◌≡◌, refl, sym, ◌∙◌, true, if◌then◌else◌, arith, List, [], Option, none, some, length,
  get_or, set, length-set, length-replicate, get_or-set_self, get_or-set_ne, get_or-replicate,
}

module _ {K D : Type 0} (keys : Keys K) (qname : D → K) where
  open keys use {idx, rhash, same, idx-same, idx-lt, same_symm}

  -- Every entry stands in the bucket of its name, sorted by the long hash; no name occurs twice.
  pub record IsTable (bs : Buckets D) : Type 0 where
    pub width : length bs ≡ hash_num_buckets
    pub chains : (i : ℕ) → IsChain keys qname i (get_or bs i [])

  abbrev pub lookup : K → Buckets D → Option D
  lookup q bs = (dns_lookup keys qname q bs).0

  pub mk_dns_hash-IsTable : IsTable mk_dns_hash
  unfolding mk_dns_hash
  mk_dns_hash-IsTable = record {
    width = length-replicate {A = List (HashEnt D)} hash_num_buckets [];
    chains = λ i. rw get_or-replicate tt;
  }

  lookup-find :
      (q : K) (bs : Buckets D) → IsTable bs → lookup q bs ≡ find keys qname q (get_or bs (idx q) [])
  unfolding dns_lookup
  lookup-find q bs v = scan-find keys qname q (idx q) (get_or bs (idx q) []) (v.chains (idx q))

  set-IsTable :
      (bs : Buckets D) (i : ℕ) (c : List (HashEnt D))
      → i < hash_num_buckets
      → IsTable bs
      → IsChain keys qname i c
      → IsTable (set bs i c)
  set-IsTable bs i c h v w = record {
    width = length-set bs i c ∙ v.width;
    chains = λ j. elim (ℕ_discrete i j) [
      | yes e ↦ rw (← e, get_or-set_self bs i c [] (rw v.width h)) w
      | no n ↦ rw (get_or-set_ne bs i j c [] n) (v.chains j)
    ];
  }

  -- A change of one bucket, seen through the lookups.
  set-lookup :
      (bs : Buckets D) (key : K) (c : List (HashEnt D)) (new : Option D)
      → IsTable bs
      → IsChain keys qname (idx key) c
      → ((q : K)
          → find keys qname q c
            ≡ (if same q key then new else find keys qname q (get_or bs (idx key) [])))
      → IsTable (set bs (idx key) c)
        × ((q : K) → lookup q (set bs (idx key) c) ≡ (if same q key then new else lookup q bs))
  set-lookup bs key c new v w reads =
      let t = set-IsTable bs (idx key) c (idx-lt key) v w in
      (
        t,
        λ q. lookup-find q (set bs (idx key) c) t ∙ elim (ℕ_discrete (idx key) (idx q)) [
          | yes e ↦ rw (
            ← e,
            get_or-set_self bs (idx key) c [] (rw v.width (idx-lt key)),
            reads q,
            lookup-find q bs v,
            e,
          )
          | no n ↦
              rw (get_or-set_ne bs (idx key) (idx q) c [] n)
                (ground (arith, lookup-find q bs v, idx-same q key))
        ],
      )

  -- A name that is not in the table is added at the place where its lookup stopped; then the lookup
  -- of it, and of names that are the same, finds the new entry, and all others find what they did.
  pub add_dns_hash-lookup :
      (bs : Buckets D) (d : D)
      → IsTable bs
      → lookup (qname d) bs ≡ none
      → (bs' : Buckets D) × (add_dns_hash true d (dns_lookup keys qname (qname d) bs).1 bs
          ≡ some bs')
        × IsTable bs'
        × ((q : K) → lookup q bs' ≡ (if same q (qname d) then some d else lookup q bs))
  unfolding add_dns_hash dns_lookup
  add_dns_hash-lookup bs d v absent =
      let c = get_or bs (idx (qname d)) [] in
      let new : HashEnt D = record { rhash = rhash (qname d); payload = d } in
      let missing = sym (lookup-find (qname d) bs v) ∙ absent in
      let (t, reads) =
        set-lookup bs (qname d) (insert_at (scan keys qname (qname d) c).1 new c) (some d) v
          (insert_at-IsChain keys qname new (idx (qname d)) c (v.chains _) refl refl missing)
          (λ q. find-insert_at keys qname q _ new c missing) in
      (_, refl, t, reads)

  -- `del_dns_hash` returns what a lookup finds; afterwards lookups of that name find nothing, and all
  -- others what they did.
  pub del_dns_hash-lookup :
      (bs : Buckets D) (key : K)
      → IsTable bs
      → ((del_dns_hash keys qname key bs).0 ≡ lookup key bs)
        × IsTable (del_dns_hash keys qname key bs).1
        × ((q : K)
            → lookup q (del_dns_hash keys qname key bs).1
              ≡ (if same q key then none else lookup q bs))
  unfolding del_dns_hash
  del_dns_hash-lookup bs key v =
      let c = get_or bs (idx key) [] in
      let (t, reads) =
        set-lookup bs key (scan_del keys qname key c).1 none v
          (scan_del-IsChain keys qname key (idx key) c (v.chains _))
          (λ q. find-scan_del keys qname q key (idx key) c (v.chains _)) in
      (scan_del-find keys qname key (idx key) c (v.chains _) ∙ sym (lookup-find key bs v), t, reads)
