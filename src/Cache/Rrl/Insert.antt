-- ===== src/Cache/Rrl/Insert.antt =====
-- Insertion keeps the list sorted by time, and puts a new entry behind all of its time.
use tor_android_service_arch.Prelude.{
  ℕ, suc, ◌≤◌, ◌<◌, ◌≡◌, refl, Bool, true, false, arith, leb, ◌==◌, if◌then◌else◌, List, [], ◌∷◌,
  ◌++◌, Option, none, some, inl, inr, Bool-cases, leb→le, append-nil,
}
use tor_android_service_arch.Cache.Rrl.{insert_before, insert_found, get_or_front, insert_rrl}

module _ {L : Type 0} (ts : L → ℕ) where
  -- No entry is older than `b`.
  abbrev pub NotBefore : ℕ → List L → Type 0
  NotBefore b [] = Unit
  NotBefore b (x ∷ xs) = (b ≤ ts x) × NotBefore b xs

  -- From the oldest to the newest.
  abbrev pub IsSorted : List L → Type 0
  IsSorted [] = Unit
  IsSorted (x ∷ xs) = NotBefore (ts x) xs × IsSorted xs

  -- The entries with one time stamp, in their order.
  abbrev pub stamped : ℕ → List L → List L
  stamped k [] = []
  stamped k (x ∷ xs) = if ts x == k then x ∷ stamped k xs else stamped k xs

  pub NotBefore-mono : (a b : ℕ) (xs : List L) → a ≤ b → NotBefore b xs → NotBefore a xs
  NotBefore-mono a b [] h p = tt
  NotBefore-mono a b (x ∷ xs) h p = (omega arith, NotBefore-mono a b xs h p.1)

  pub stamped-append :
      (k : ℕ) (xs ys : List L) → stamped k (xs ++ ys) ≡ stamped k xs ++ stamped k ys
  stamped-append k [] ys = refl
  stamped-append k (x ∷ xs) ys = ground (arith, stamped-append k xs ys)

  pub stamped_before : (k b : ℕ) (xs : List L) → k < b → NotBefore b xs → stamped k xs ≡ []
  stamped_before k b [] h p = refl
  stamped_before k b (x ∷ xs) h p = ground (arith, stamped_before k b xs h p.1)

  -- What the search has done, by its result.
  abbrev Found : L → List L → Option (List L) → Type 0
  Found ne l none = NotBefore (suc (ts ne)) l
  Found ne l (some r) =
      IsSorted r
      × ((b : ℕ) → NotBefore b l → (b ≤ ts ne) × NotBefore b r)
      × ((k : ℕ) → stamped k r ≡ stamped k l ++ stamped k (ne ∷ []))

  stamped_here :
      (ne le : L) (rest : List L)
      → NotBefore (suc (ts ne)) rest
      → (k : ℕ) → stamped k (le ∷ ne ∷ rest) ≡ stamped k (le ∷ rest) ++ stamped k (ne ∷ [])
  stamped_here ne le rest p k = ground (
    arith,
    stamped_before k (suc (ts ne)) rest,
    append-nil (stamped k rest),
    append-nil (le ∷ stamped k rest),
  )

  insert_before-Found :
      (ne le : L) (rest : List L) (o : Option (List L))
      → IsSorted (le ∷ rest)
      → Found ne rest o
      → Found ne (le ∷ rest) (insert_before ts ne le rest o)
  insert_before-Found ne le rest (some r) s f = (
    ((f.1 (ts le) s.0).1, f.0),
    (λ b h. ((f.1 b h.1).0, (h.0, (f.1 b h.1).1))),
    (λ k. ground (arith, f.2 k)),
  )
  insert_before-Found ne le rest none s f = elim (Bool-cases (leb (ts le) (ts ne))) [
    | inl h ↦ rw h (
      ((leb→le _ _ h, s.0), (NotBefore-mono (ts ne) (suc (ts ne)) rest (omega arith) f, s.1)),
      (λ b g. (ground arith, (g.0, (ground arith, g.1)))),
      stamped_here ne le rest f,
    )
    | inr h ↦ rw h (ground arith, f)
  ]

  insert_found-Found : (ne : L) (l : List L) → IsSorted l → Found ne l (insert_found ts ne l)
  unfolding insert_found
  insert_found-Found ne [] s = tt
  insert_found-Found ne (le ∷ rest) s =
      insert_before-Found ne le rest (insert_found ts ne rest) s (insert_found-Found ne rest s.1)

  get_or_front-IsSorted :
      (ne : L) (l : List L) (o : Option (List L))
      → IsSorted l
      → Found ne l o
      → IsSorted (get_or_front ts ne l o)
        × ((k : ℕ) → stamped k (get_or_front ts ne l o) ≡ stamped k l ++ stamped k (ne ∷ []))
  get_or_front-IsSorted ne l (some r) s f = (f.0, f.2)
  get_or_front-IsSorted ne l none s f = (
    (NotBefore-mono (ts ne) (suc (ts ne)) l (omega arith) f, s),
    (λ k. ground (arith, stamped_before k (suc (ts ne)) l, append-nil (stamped k l))),
  )

  -- With `insert_sort` set and memory at hand, an entry that is not local goes into the list at its
  -- place: the list stays sorted by time, the new entry stands behind the old ones of its own time
  -- stamp, and those of any one time stamp keep their order. A local entry is left out.
  pub insert_rrl-IsSorted :
      (local : Bool) (ne : L) (l : List L)
      → IsSorted l
      → (l' : List L) × (insert_rrl ts local true true ne l ≡ some l')
        × IsSorted l'
        × ((k : ℕ)
            → stamped k l' ≡ (if local then stamped k l else stamped k l ++ stamped k (ne ∷ [])))
  unfolding insert_rrl
  insert_rrl-IsSorted true ne l s = (l, refl, s, λ k. refl)
  insert_rrl-IsSorted false ne l s =
      let r = get_or_front-IsSorted ne l (insert_found ts ne l) s (insert_found-Found ne l s) in
      (_, refl, r.0, r.1)
