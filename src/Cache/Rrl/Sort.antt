-- ===== src/Cache/Rrl/Sort.antt =====
-- `sort_rrl` sorts, keeps every entry, and keeps the order of entries of one time stamp; its array
-- is large enough for a list shorter than 2 ^ 32.
use tor_android_service_arch.Prelude.{
  ℕ, zero, suc, ◌+◌, ◌*◌, ◌^◌, ◌≤◌, ◌<◌, ◌≡◌, ◌⊎◌, refl, sym, ◌∙◌, true, false, arith, leb, List,
  [], ◌∷◌, ◌++◌, some, inl, inr, Bool-cases, leb→le, append-nil, append_assoc, length,
  length-append,
}
use tor_android_service_arch.Cache.Rrl.{
  listmerge, carry_up, fill_tmp, merge_tmp, merge_filled, sort_rrl, ntmpsort,
}
use tor_android_service_arch.Cache.Rrl.Insert.{
  NotBefore, IsSorted, stamped, NotBefore-mono, stamped-append, stamped_before,
}

module _ {L : Type 0} (ts : L → ℕ) where
  listmerge-NotBefore :
      (b : ℕ) (p q : List L)
      → NotBefore ts b p
      → NotBefore ts b q
      → NotBefore ts b (listmerge ts p q)
  unfolding listmerge
  listmerge-NotBefore b [] q hp hq = hq
  listmerge-NotBefore b (p ∷ ps) [] hp hq = hp
  listmerge-NotBefore b (p ∷ ps) (q ∷ qs) hp hq =
      ground (
        arith,
        listmerge-NotBefore b ps (q ∷ qs) hp.1 hq,
        listmerge-NotBefore b (p ∷ ps) qs hp hq.1,
      )

  -- The two ways of the loop.
  listmerge_first :
      (p q : L) (ps qs : List L)
      → leb (ts p) (ts q) ≡ true
      → listmerge ts (p ∷ ps) (q ∷ qs) ≡ p ∷ listmerge ts ps (q ∷ qs)
  unfolding listmerge
  listmerge_first p q ps qs h = ground arith

  listmerge_second :
      (p q : L) (ps qs : List L)
      → leb (ts p) (ts q) ≡ false
      → listmerge ts (p ∷ ps) (q ∷ qs) ≡ q ∷ listmerge ts (p ∷ ps) qs
  unfolding listmerge
  listmerge_second p q ps qs h = ground arith

  listmerge-IsSorted :
      (p q : List L) → IsSorted ts p → IsSorted ts q → IsSorted ts (listmerge ts p q)
  unfolding listmerge
  listmerge-IsSorted [] q hp hq = hq
  listmerge-IsSorted (p ∷ ps) [] hp hq = hp
  listmerge-IsSorted (p ∷ ps) (q ∷ qs) hp hq = elim (Bool-cases (leb (ts p) (ts q))) [
    | inl h ↦ rw (listmerge_first p q ps qs h) (
      listmerge-NotBefore (ts p) ps (q ∷ qs) hp.0
          (leb→le _ _ h, NotBefore-mono ts (ts p) (ts q) qs (leb→le _ _ h) hq.0),
      listmerge-IsSorted ps (q ∷ qs) hp.1 hq,
    )
    | inr h ↦
        let older : ts q ≤ ts p = ground arith in
        rw (listmerge_second p q ps qs h) (
          listmerge-NotBefore (ts q) (p ∷ ps) qs
              (older, NotBefore-mono ts (ts q) (ts p) ps older hp.0) hq.0,
          listmerge-IsSorted (p ∷ ps) qs hp hq.1,
        )
  ]

  stamped-listmerge :
      (k : ℕ) (p q : List L)
      → IsSorted ts p
      → stamped ts k (listmerge ts p q) ≡ stamped ts k p ++ stamped ts k q
  unfolding listmerge
  stamped-listmerge k [] q hp = refl
  stamped-listmerge k (p ∷ ps) [] hp = sym (append-nil (stamped ts k (p ∷ ps)))
  stamped-listmerge k (p ∷ ps) (q ∷ qs) hp = elim (Bool-cases (leb (ts p) (ts q))) [
    | inl h ↦
        rw (listmerge_first p q ps qs h) (ground (arith, stamped-listmerge k ps (q ∷ qs) hp.1))
    | inr h ↦ rw (listmerge_second p q ps qs h) (
        ground (
          arith,
          stamped-listmerge k (p ∷ ps) qs hp,
          stamped_before ts k (ts p) ps,
          append-nil (stamped ts k ps),
        ))
  ]

  -- The entries in `tmp`, the earliest first: a later list of the array holds earlier entries.
  abbrev spread : List (List L) → List L
  spread [] = []
  spread (t ∷ tmp) = spread tmp ++ t

  abbrev AllSorted : List (List L) → Type 0
  AllSorted [] = Unit
  AllSorted (t ∷ tmp) = IsSorted ts t × AllSorted tmp

  -- `tmp[i]` is empty or has 2 ^ i entries, where the first list has `w`.
  abbrev Filled : ℕ → List (List L) → Type 0
  Filled w [] = Unit
  Filled w (t ∷ tmp) = ((length t ≡ 0) ⊎ (length t ≡ w)) × Filled (w * 2) tmp

  abbrev capacity : ℕ → ℕ → ℕ
  capacity w zero = w
  capacity w (suc left) = capacity (w * 2) left

  length-listmerge : (p q : List L) → length (listmerge ts p q) ≡ length p + length q
  unfolding listmerge
  length-listmerge [] q = omega arith
  length-listmerge (p ∷ ps) [] = omega arith
  length-listmerge (p ∷ ps) (q ∷ qs) =
      ground (arith, length-listmerge ps (q ∷ qs), length-listmerge (p ∷ ps) qs)

  -- `tmp` after a list of entries has been carried into it.
  record Carried (w : ℕ) (tmp : List (List L)) (carry : List L) (t : List (List L)) : Type 0 where
    filled : Filled w t
    sorted : AllSorted t
    counted : length (spread t) ≡ length (spread tmp) + length carry
    kept : (k : ℕ) → stamped ts k (spread t) ≡ stamped ts k (spread tmp) ++ stamped ts k carry

  carry_up-Carried :
      (left w : ℕ) (tmp : List (List L)) (carry : List L)
      → Filled w tmp
      → AllSorted tmp
      → IsSorted ts carry
      → length carry ≡ w
      → length (spread tmp) + w < capacity w left
      → (t : List (List L)) × (carry_up ts left tmp carry ≡ some t) × Carried w tmp carry t
  unfolding carry_up
  carry_up-Carried zero w tmp carry f a s e h = absurd (omega arith)
  carry_up-Carried (suc left) w [] carry f a s e h = (
    carry ∷ [],
    refl,
    record { filled = (inr e, tt); sorted = (s, tt); counted = omega arith; kept = λ k. refl },
  )
  carry_up-Carried (suc left) w ([] ∷ tmp) carry f a s e h = (
    carry ∷ tmp,
    refl,
    record {
      filled = (inr e, f.1);
      sorted = (s, a.1);
      counted = rw append-nil (length-append (spread tmp) carry);
      kept = λ k. rw append-nil (stamped-append ts k (spread tmp) carry);
    },
  )
  carry_up-Carried (suc left) w ((c ∷ cs) ∷ tmp) carry f a s e h =
      let full : length (c ∷ cs) ≡ w = ground arith in
      let parts = length-append (spread tmp) (c ∷ cs) in
      let merged = length-listmerge (c ∷ cs) carry in
      let (t, run, r) =
        carry_up-Carried left (w * 2) tmp (listmerge ts (c ∷ cs) carry) f.1 a.1
          (listmerge-IsSorted (c ∷ cs) carry a.0 s) (omega arith) (omega arith) in
      (
        [] ∷ t,
        rw run,
        record {
          filled = (inl refl, r.filled);
          sorted = (tt, r.sorted);
          counted = rw append-nil (omega (arith, r.counted));
          kept = λ k. rw append-nil (
              simp
                (r.kept k, stamped-listmerge k (c ∷ cs) carry a.0, stamped-append, append_assoc));
        },
      )

  -- All the entries, one by one.
  fill_tmp-Carried :
      (rem : List L) (tmp : List (List L))
      → Filled 1 tmp
      → AllSorted tmp
      → length (spread tmp) + length rem < capacity 1 ntmpsort
      → (t : List (List L)) × (fill_tmp ts rem tmp ≡ some t) × Carried 1 tmp rem t
  unfolding fill_tmp
  fill_tmp-Carried [] tmp f a h = (
    tmp,
    refl,
    record { filled = f; sorted = a; counted = omega arith; kept = λ k. sym (append-nil _) },
  )
  fill_tmp-Carried (x ∷ rem) tmp f a h =
      let (t, run, c) = carry_up-Carried ntmpsort 1 tmp (x ∷ []) f a (tt, tt) refl (omega arith) in
      let (u, later, d) = fill_tmp-Carried rem t c.filled c.sorted (omega (arith, c.counted)) in
      (
        u,
        rw run later,
        record {
          filled = d.filled;
          sorted = d.sorted;
          counted = omega (arith, c.counted, d.counted);
          kept =
              λ k. rw (d.kept k, c.kept k, append_assoc) (rw (← stamped-append ts k (x ∷ []) rem));
        },
      )

  merge_tmp-IsSorted :
      (tmp : List (List L)) (carry : List L)
      → AllSorted tmp
      → IsSorted ts carry
      → IsSorted ts (merge_tmp ts carry tmp)
        × ((k : ℕ) → stamped ts k (merge_tmp ts carry tmp) ≡ stamped ts k (spread tmp ++ carry))
  unfolding merge_tmp
  merge_tmp-IsSorted [] carry a s = (s, λ k. refl)
  merge_tmp-IsSorted (t ∷ tmp) carry a s =
      let (sorted, kept) =
        merge_tmp-IsSorted tmp (listmerge ts t carry) a.1 (listmerge-IsSorted t carry a.0 s) in
      (
        sorted,
        λ k. rw (kept k) (simp (stamped-append, stamped-listmerge k t carry a.0, append_assoc)),
      )

  -- A list of fewer than 2 ^ 32 entries is sorted by time, with no assertion failing. Every entry is
  -- kept, and entries of one time stamp keep their order.
  pub sort_rrl-IsSorted :
      (xs : List L)
      → length xs < 2 ^ 32
      → (l : List L) × (sort_rrl ts xs ≡ some l)
        × IsSorted ts l
        × ((k : ℕ) → stamped ts k l ≡ stamped ts k xs)
  unfolding sort_rrl
  sort_rrl-IsSorted [] h = ([], refl, tt, λ k. refl)
  sort_rrl-IsSorted (x ∷ []) h = (x ∷ [], refl, (tt, tt), λ k. refl)
  sort_rrl-IsSorted (x ∷ y ∷ rem) h =
      let (tmp, run, c) = fill_tmp-Carried (x ∷ y ∷ rem) [] tt tt (omega arith) in
      let (sorted, kept) = merged tmp c.sorted in
      (merge_filled ts tmp, rw run, sorted, λ k. kept k ∙ c.kept k)
    where
      merged :
          (tmp : List (List L))
          → AllSorted tmp
          → IsSorted ts (merge_filled ts tmp)
            × ((k : ℕ) → stamped ts k (merge_filled ts tmp) ≡ stamped ts k (spread tmp))
      merged [] a = (tt, λ k. refl)
      merged (t ∷ tmp) a = merge_tmp-IsSorted tmp t a.1 a.0
