-- ===== src/Cache/Store/Books.antt =====
-- The books of the cache: `cache_size` is the sum of the sizes of the entries, `ent_num` their
-- number, and each entry is well accounted.
use mathlib.Core.Path.{subst}
use tor_android_service_arch.Cache.Cent.{Sizes, Cent}
use tor_android_service_arch.Cache.Cent.Accounts.{Accounted}
use tor_android_service_arch.Cache.Cent.Purge.{Purged}
use tor_android_service_arch.Cache.Store.{
  Store, find_cent, write_cent, remove_cent, del_cent, del_cache_ent,
}
use tor_android_service_arch.Cache.Store.Purge.{after_sets}
use tor_android_service_arch.Names.{Bytes}
use tor_android_service_arch.Names.Same.{IsEquivalence}
use tor_android_service_arch.Prelude.{
  ℕ, ◌+◌, ◌≡◌, refl, sym, ◌∙◌, arith, Bool, true, List, [], ◌∷◌, Option, none, some, length,
  Bool-cases, inl, inr,
}

abbrev pub total_cs : List Cent → ℕ
total_cs [] = 0
total_cs (c ∷ cs) = c.cs + total_cs cs

module _ (sz : Sizes) where
  abbrev pub AllAccounted : List Cent → Type 0
  AllAccounted [] = Unit
  AllAccounted (c ∷ cs) = Accounted sz (length c.qname) c × AllAccounted cs

  pub record Books (s : Store) : Type 0 where
    pub size : s.cache_size ≡ total_cs s.entries
    pub number : s.ent_num ≡ length s.entries
    pub accounted : AllAccounted s.entries

module _ (same : Bytes → Bytes → Bool) where
  pub total_cs-write_cent :
      (key : Bytes) (c c' : Cent) (cs : List Cent)
      → find_cent same key cs ≡ some c
      → total_cs (write_cent same key c' cs) + c.cs ≡ total_cs cs + c'.cs
  total_cs-write_cent key c c' [] e = cc
  total_cs-write_cent key c c' (d ∷ cs) e = elim (Bool-cases (same key d.qname)) [
    | inl h ↦
        let f : some d ≡ some c = rw h at e in
        let g : d.cs ≡ c.cs = ground arith in rw h (omega arith)
    | inr h ↦ rw h (omega (arith, total_cs-write_cent key c c' cs (rw h at e)))
  ]

  pub length-write_cent :
      (key : Bytes) (c' : Cent) (cs : List Cent) → length (write_cent same key c' cs) ≡ length cs
  length-write_cent key c' [] = refl
  length-write_cent key c' (d ∷ cs) = ground (arith, length-write_cent key c' cs)

  pub total_cs-remove_cent :
      (key : Bytes) (c : Cent) (cs : List Cent)
      → find_cent same key cs ≡ some c
      → (total_cs (remove_cent same key cs) + c.cs ≡ total_cs cs)
        × (length (remove_cent same key cs) + 1 ≡ length cs)
  total_cs-remove_cent key c [] e = cc
  total_cs-remove_cent key c (d ∷ cs) e = elim (Bool-cases (same key d.qname)) [
    | inl h ↦
        let f : some d ≡ some c = rw h at e in
        let g : d.cs ≡ c.cs = ground arith in rw h (omega arith, omega arith)
    | inr h ↦
        let ih = total_cs-remove_cent key c cs (rw h at e) in
        rw h (omega (arith, ih.0), omega (arith, ih.1))
  ]

  pub find_cent-write_cent :
      (key : Bytes) (c c' : Cent) (cs : List Cent)
      → find_cent same key cs ≡ some c
      → same key c'.qname ≡ true
      → find_cent same key (write_cent same key c' cs) ≡ some c'
  find_cent-write_cent key c c' [] e h = cc
  find_cent-write_cent key c c' (d ∷ cs) e h = elim (Bool-cases (same key d.qname)) [
    | inl k ↦ rw (k, h) refl
    | inr k ↦ rw (k, k) (find_cent-write_cent key c c' cs (rw k at e) h)
  ]

  abbrev SameAs : Bytes → Option Cent → Type 0
  SameAs key none = Unit
  SameAs key (some c) = same key c.qname ≡ true

  pub find_cent-same :
      (key : Bytes) (c : Cent) (cs : List Cent)
      → find_cent same key cs ≡ some c
      → same key c.qname ≡ true
  find_cent-same key c [] e = cc
  find_cent-same key c (d ∷ cs) e = elim (Bool-cases (same key d.qname)) [
    | inl k ↦ subst (SameAs key) (rw k at e) k
    | inr k ↦ find_cent-same key c cs (rw k at e)
  ]

  abbrev pub FoundAs : List Cent → Option Cent → Type 0
  FoundAs cs none = Unit
  FoundAs cs (some c) = find_cent same c.qname cs ≡ some c

  -- What is found by another name of an entry is found by the entry's own.
  pub find_cent-qname :
      (key : Bytes) (c : Cent) (cs : List Cent)
      → IsEquivalence same
      → find_cent same key cs ≡ some c
      → find_cent same c.qname cs ≡ some c
  find_cent-qname key c [] q e = cc
  find_cent-qname key c (d ∷ cs) q e = elim (Bool-cases (same key d.qname)) [
    | inl k ↦ subst (FoundAs (d ∷ cs)) (rw k at e) (rw (q.same_refl d.qname) refl)
    | inr k ↦
        let f = rw k at e in
        elim (Bool-cases (same c.qname d.qname)) [
          | inl t ↦ let u = q.same_trans key c.qname d.qname (find_cent-same key c cs f) t in cc
          | inr t ↦ rw t (find_cent-qname key c cs q f)
        ]
  ]

module _ (same : Bytes → Bytes → Bool) (sz : Sizes) where
  pub AllAccounted-write_cent :
      (key : Bytes) (c' : Cent) (cs : List Cent)
      → AllAccounted sz cs
      → Accounted sz (length c'.qname) c'
      → AllAccounted sz (write_cent same key c' cs)
  AllAccounted-write_cent key c' [] all a = tt
  AllAccounted-write_cent key c' (d ∷ cs) all a = elim (Bool-cases (same key d.qname)) [
    | inl h ↦ rw h (a, all.1)
    | inr h ↦ rw h (all.0, AllAccounted-write_cent key c' cs all.1 a)
  ]

  pub AllAccounted-remove_cent :
      (key : Bytes) (cs : List Cent)
      → AllAccounted sz cs
      → AllAccounted sz (remove_cent same key cs)
  AllAccounted-remove_cent key [] all = tt
  AllAccounted-remove_cent key (d ∷ cs) all = elim (Bool-cases (same key d.qname)) [
    | inl h ↦ rw h all.1
    | inr h ↦ rw h (all.0, AllAccounted-remove_cent key cs all.1)
  ]

  abbrev OkAccounted : Option Cent → Type 0
  OkAccounted none = Unit
  OkAccounted (some c) = Accounted sz (length c.qname) c

  pub find_cent-Accounted :
      (key : Bytes) (c : Cent) (cs : List Cent)
      → AllAccounted sz cs
      → find_cent same key cs ≡ some c
      → Accounted sz (length c.qname) c
  find_cent-Accounted key c [] all e = cc
  find_cent-Accounted key c (d ∷ cs) all e = elim (Bool-cases (same key d.qname)) [
    | inl h ↦ subst OkAccounted (rw h at e) all.0
    | inr h ↦ find_cent-Accounted key c cs all.1 (rw h at e)
  ]

  -- Deleting an entry of the cache keeps the books.
  pub del_cache_ent-Books :
      (c : Cent) (s : Store)
      → Books sz s
      → find_cent same c.qname s.entries ≡ some c
      → Books sz (del_cache_ent same sz c s)
  unfolding del_cache_ent del_cent
  del_cache_ent-Books c s b e =
      let (size, number) = total_cs-remove_cent same c.qname c s.entries e in
      record {
        size = omega (arith, b.size, size);
        number = omega (arith, b.number, number);
        accounted = AllAccounted-remove_cent c.qname s.entries b.accounted;
      }

  -- An entry whose sets have been purged.
  pub after_sets-Books :
      (c : Cent) (p : Purged) (s : Store)
      → IsEquivalence same
      → Books sz s
      → find_cent same c.qname s.entries ≡ some c
      → p.cent.qname ≡ c.qname
      → Accounted sz (length c.qname) p.cent
      → p.cent.cs + p.freed ≡ c.cs
      → Books sz (after_sets same c p s)
        × (find_cent same c.qname (after_sets same c p s).entries ≡ some p.cent)
  after_sets-Books c p s q b e n a f =
      let key : same c.qname p.cent.qname ≡ true = rw n (q.same_refl c.qname) in
      let size = total_cs-write_cent same c.qname c p.cent s.entries e in
      (
        record {
          size = omega (arith, b.size, size, f);
          number = b.number ∙ sym (length-write_cent same c.qname p.cent s.entries);
          accounted =
              AllAccounted-write_cent c.qname p.cent s.entries b.accounted
                (subst (λ (name : Bytes). Accounted sz (length name) p.cent) (sym n) a);
        },
        find_cent-write_cent same c.qname c p.cent s.entries e key,
      )
