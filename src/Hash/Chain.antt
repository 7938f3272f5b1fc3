-- ===== src/Hash/Chain.antt =====
-- One bucket: sorted by the long hash, every entry under its own hashes, no name twice.
use tor_android_service_arch.Hash.{HashEnt, insert_at, scan, scan_del}
use tor_android_service_arch.Hash.Key.{Keys}
use tor_android_service_arch.Prelude.{
  ℕ, zero, suc, ◌≤◌, ◌<◌, ◌≡◌, refl, true, false, leb, if◌then◌else◌, arith, List, [], ◌∷◌, Option,
  none, some, Bool-cases, inl, inr,
}

module _ {K D : Type 0} (keys : Keys K) (qname : D → K) where
  open keys use {idx, rhash, same, same_refl, same_symm, same_trans, idx-same, rhash-same}

  -- The entries behind `he` do not hash lower, and have other names.
  abbrev pub Above : HashEnt D → List (HashEnt D) → Type 0
  Above he [] = Unit
  Above he (f ∷ c) =
      (he.rhash ≤ f.rhash) × (same (qname he.payload) (qname f.payload) ≡ false) × Above he c

  abbrev pub IsChain : ℕ → List (HashEnt D) → Type 0
  IsChain i [] = Unit
  IsChain i (he ∷ c) =
      (idx (qname he.payload) ≡ i)
      × (rhash (qname he.payload) ≡ he.rhash)
      × Above he c
      × IsChain i c

  -- The lookup as it is meant: the first entry of this name.
  abbrev pub find : K → List (HashEnt D) → Option D
  find key [] = none
  find key (he ∷ c) = if same key (qname he.payload) then some he.payload else find key c

  find-Above :
      (key : K) (i r : ℕ) (he : HashEnt D) (c : List (HashEnt D))
      → rhash key < he.rhash
      → Above he c
      → IsChain i c
      → find key c ≡ none
  find-Above key i r he [] h a v = refl
  find-Above key i r he (f ∷ c) h a v =
      ground (arith, find-Above key i r he c h a.2 v.3, rhash-same key (qname f.payload))

  pub scan-find :
      (key : K) (i : ℕ) (c : List (HashEnt D))
      → IsChain i c
      → (scan keys qname key c).0 ≡ find key c
  unfolding scan
  scan-find key i [] v = refl
  scan-find key i (he ∷ c) v =
      ground
        (arith, scan-find key i c v.3, find-Above key i 0 he c, rhash-same key (qname he.payload))

  Above-insert_at :
      (he new : HashEnt D) (pos : ℕ) (c : List (HashEnt D))
      → he.rhash ≤ new.rhash
      → same (qname he.payload) (qname new.payload) ≡ false
      → Above he c
      → Above he (insert_at pos new c)
  unfolding insert_at
  Above-insert_at he new zero c h n a = (h, n, a)
  Above-insert_at he new (suc pos) [] h n a = (h, n, tt)
  Above-insert_at he new (suc pos) (f ∷ c) h n a = (a.0, a.1, Above-insert_at he new pos c h n a.2)

  Above-new :
      (new he : HashEnt D) (c : List (HashEnt D))
      → new.rhash ≤ he.rhash
      → Above he c
      → find (qname new.payload) c ≡ none
      → Above new c
  Above-new new he [] h a n = tt
  Above-new new he (f ∷ c) h a n =
      (omega arith, ground arith, Above-new new he c h a.2 (ground arith))

  scan_on :
      (key : K) (he : HashEnt D) (c : List (HashEnt D))
      → he.rhash ≤ rhash key
      → same key (qname he.payload) ≡ false
      → (scan keys qname key (he ∷ c)).1 ≡ suc (scan keys qname key c).1
  unfolding scan
  scan_on key he c h n = ground arith

  scan_stop :
      (key : K) (he : HashEnt D) (c : List (HashEnt D))
      → rhash key < he.rhash
      → (scan keys qname key (he ∷ c)).1 ≡ 0
  unfolding scan
  scan_stop key he c h = ground arith

  -- A new entry goes where the lookup of its name has stopped.
  pub insert_at-IsChain :
      (new : HashEnt D) (i : ℕ) (c : List (HashEnt D))
      → IsChain i c
      → idx (qname new.payload) ≡ i
      → rhash (qname new.payload) ≡ new.rhash
      → find (qname new.payload) c ≡ none
      → IsChain i (insert_at (scan keys qname (qname new.payload) c).1 new c)
  unfolding insert_at
  insert_at-IsChain new i [] v e r n = unfold scan in (e, r, tt, tt)
  insert_at-IsChain new i (he ∷ c) v e r n = elim (Bool-cases (leb he.rhash new.rhash)) [
    | inl h ↦ rw (scan_on (qname new.payload) he c (ground arith) (ground arith)) (
      v.0,
      v.1,
      Above-insert_at he new _ c (ground arith)
          (rw (same_symm (qname he.payload) (qname new.payload)) (ground arith)) v.2,
      insert_at-IsChain new i c v.3 e r (ground arith),
    )
    | inr h ↦ rw (scan_stop (qname new.payload) he c (ground arith)) (
      e,
      r,
      (ground arith, ground arith, Above-new new he c (ground arith) v.2 (ground arith)),
      v,
    )
  ]

  -- Two names that are the same are found alike.
  pub find_congr : (a b : K) (c : List (HashEnt D)) → same a b ≡ true → find a c ≡ find b c
  find_congr a b [] h = refl
  find_congr a b (he ∷ c) h = ground (
    arith,
    find_congr a b c,
    same_trans a b (qname he.payload),
    same_trans b a (qname he.payload),
    same_symm a b,
  )

  pub find-insert_at :
      (key : K) (pos : ℕ) (new : HashEnt D) (c : List (HashEnt D))
      → find (qname new.payload) c ≡ none
      → find key (insert_at pos new c)
        ≡ (if same key (qname new.payload) then some new.payload else find key c)
  unfolding insert_at
  find-insert_at key zero new c n = refl
  find-insert_at key (suc pos) new [] n = refl
  find-insert_at key (suc pos) new (he ∷ c) n = ground (
    arith,
    find-insert_at key pos new c,
    same_trans (qname new.payload) key (qname he.payload),
    same_symm key (qname new.payload),
  )

  -- `del_dns_hash` removes what the lookup finds, and nothing else.
  pub scan_del-find :
      (key : K) (i : ℕ) (c : List (HashEnt D))
      → IsChain i c
      → (scan_del keys qname key c).0 ≡ find key c
  unfolding scan_del
  scan_del-find key i [] v = refl
  scan_del-find key i (he ∷ c) v =
      ground (
        arith,
        scan_del-find key i c v.3,
        find-Above key i 0 he c,
        rhash-same key (qname he.payload),
      )

  Above-find :
      (key : K) (he : HashEnt D) (c : List (HashEnt D))
      → same key (qname he.payload) ≡ true
      → Above he c
      → find key c ≡ none
  Above-find key he [] h a = refl
  Above-find key he (f ∷ c) h a = ground (
    arith,
    Above-find key he c h a.2,
    same_trans (qname he.payload) key (qname f.payload),
    same_symm key (qname he.payload),
  )

  pub find-scan_del :
      (q key : K) (i : ℕ) (c : List (HashEnt D))
      → IsChain i c
      → find q (scan_del keys qname key c).1 ≡ (if same q key then none else find q c)
  unfolding scan_del
  find-scan_del q key i [] v = ground arith
  find-scan_del q key i (he ∷ c) v = ground (
    arith,
    find-scan_del q key i c v.3,
    find-Above key i 0 he c,
    find_congr q key c,
    Above-find q he c,
    rhash-same key (qname he.payload),
    same_trans q key (qname he.payload),
    same_trans key q (qname he.payload),
    same_trans q (qname he.payload) key,
    same_symm q key,
    same_symm key (qname he.payload),
  )

  Above-scan_del :
      (key : K) (he : HashEnt D) (c : List (HashEnt D))
      → Above he c
      → Above he (scan_del keys qname key c).1
  unfolding scan_del
  Above-scan_del key he [] a = tt
  Above-scan_del key he (f ∷ c) a = ground (arith, Above-scan_del key he c a.2)

  pub scan_del-IsChain :
      (key : K) (i : ℕ) (c : List (HashEnt D))
      → IsChain i c
      → IsChain i (scan_del keys qname key c).1
  unfolding scan_del
  scan_del-IsChain key i [] v = tt
  scan_del-IsChain key i (he ∷ c) v =
      ground (arith, scan_del-IsChain key i c v.3, Above-scan_del key he c v.2)
