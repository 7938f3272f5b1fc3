-- ===== src/Keywords/Search.antt =====
-- The binary search finds each keyword of a table in order, and no other word.
use mathlib.Core.Path.{subst}
use native.Mathlib.Decide.{ℕ_discrete}
use tor_android_service_arch.Keywords.{
  NameValue, Sign, negative, same, positive, keyncmp, binsearch_from, binsearch_keyword,
}
use tor_android_service_arch.Names.{Bytes}
use tor_android_service_arch.Prelude.{
  ℕ, zero, suc, ◌+◌, ◌/◌, ◌≤◌, ◌<◌, ◌≡◌, ◌≢◌, ◌⊎◌, refl, sym, ap, ◌∙◌, arith, Bool, true, false,
  ◌&&◌, ltb, List, [], ◌∷◌, Option, none, some, length, get_elem?, Bool-cases, inl, inr,
}

-- `strcmp(a, b) < 0`
abbrev pub is_before : Bytes → Bytes → Bool
is_before a b = elim (keyncmp a b) [ negative ↦ true | same ↦ false | positive ↦ false ]

abbrev pub before_all : Bytes → List NameValue → Bool
before_all a [] = true
before_all a (e ∷ es) = is_before a e.name && before_all a es

-- "Order alphabetically!!"
abbrev pub in_order : List NameValue → Bool
in_order [] = true
in_order (e ∷ es) = before_all e.name es && in_order es

keyncmp-same : (a b : Bytes) → keyncmp a b ≡ same → a ≡ b
unfolding keyncmp
keyncmp-same [] [] e = refl
keyncmp-same [] (y ∷ b) e = cc
keyncmp-same (x ∷ a) [] e = cc
keyncmp-same (x ∷ a) (y ∷ b) e = ground (arith, keyncmp-same a b)

keyncmp_self : (a : Bytes) → keyncmp a a ≡ same
unfolding keyncmp
keyncmp_self [] = refl
keyncmp_self (x ∷ a) = ground (arith, keyncmp_self a)

keyncmp_swap : (a b : Bytes) → keyncmp a b ≡ negative → keyncmp b a ≡ positive
unfolding keyncmp
keyncmp_swap [] [] e = cc
keyncmp_swap [] (y ∷ b) e = refl
keyncmp_swap (x ∷ a) [] e = cc
keyncmp_swap (x ∷ a) (y ∷ b) e = ground (arith, keyncmp_swap a b)

negative_if :
    (s : Sign) → elim s [ negative ↦ true | same ↦ false | positive ↦ false ] ≡ true → s ≡ negative
negative_if negative e = refl
negative_if same e = cc
negative_if positive e = cc

before_all_at :
    (a : Bytes) (es : List NameValue) (j : ℕ) (e : NameValue)
    → before_all a es ≡ true
    → get_elem? es j ≡ some e
    → keyncmp a e.name ≡ negative
before_all_at a [] j e o g = cc
before_all_at a (x ∷ es) zero e o g =
    subst (λ (y : Option NameValue). elim y [ none ↦ Unit | some z ↦ keyncmp a z.name ≡ negative ])
      g (negative_if (keyncmp a x.name) (ground arith))
before_all_at a (x ∷ es) (suc j) e o g = before_all_at a es j e (ground arith) g

-- In a table in order, an earlier entry is before a later one.
in_order_at :
    (dic : List NameValue) (i j : ℕ) (d e : NameValue)
    → in_order dic ≡ true
    → i < j
    → get_elem? dic i ≡ some d
    → get_elem? dic j ≡ some e
    → keyncmp d.name e.name ≡ negative
in_order_at [] i j d e o h f g = cc
in_order_at (x ∷ es) zero zero d e o h f g = absurd (omega (arith, h))
in_order_at (x ∷ es) (suc i) zero d e o h f g = absurd (omega (arith, h))
in_order_at (x ∷ es) zero (suc j) d e o h f g =
    subst
      (λ (y : Option NameValue). elim y [ none ↦ Unit | some z ↦ keyncmp z.name e.name ≡ negative ])
      f (before_all_at x.name es j e (ground arith) g)
in_order_at (x ∷ es) (suc i) (suc j) d e o h f g =
    in_order_at es i j d e (ground arith) (omega (arith, h)) f g

get_inside :
    (dic : List NameValue) (k : ℕ) → k < length dic → (e : NameValue) × (get_elem? dic k ≡ some e)
get_inside [] k h = absurd (omega (arith, h))
get_inside (e ∷ dic) zero h = (e, refl)
get_inside (e ∷ dic) (suc k) h = get_inside dic k (omega (arith, h))

inside_of :
    (dic : List NameValue) (t : ℕ) (e : NameValue) → get_elem? dic t ≡ some e → t < length dic
inside_of [] t e g = cc
inside_of (x ∷ dic) zero e g = omega arith
inside_of (x ∷ dic) (suc t) e g = omega (arith, inside_of dic t e g)

Sign-cases : (s : Sign) → (s ≡ negative) ⊎ ((s ≡ same) ⊎ (s ≡ positive))
Sign-cases negative = inl refl
Sign-cases same = inr (inl refl)
Sign-cases positive = inr (inr refl)

module _ (dic : List NameValue) where
  round :
      (fuel i j : ℕ) (name : Bytes) (e : NameValue) (s : Sign)
      → i < j
      → get_elem? dic ((i + j) / 2) ≡ some e
      → keyncmp name e.name ≡ s
      → binsearch_from (suc fuel) name dic i j ≡ elim s [
        | negative ↦ binsearch_from fuel name dic i ((i + j) / 2)
        | same ↦ some e.val
        | positive ↦ binsearch_from fuel name dic ((i + j) / 2 + 1) j
      ]
  unfolding binsearch_from
  round fuel i j name e s h g c = let t : ltb i j ≡ true = ground (arith, h) in rw (t, g, c) refl

  finds :
      (fuel i j t : ℕ) (e : NameValue)
      → in_order dic ≡ true
      → get_elem? dic t ≡ some e
      → j ≤ fuel + i
      → i ≤ t
      → t < j
      → j ≤ length dic
      → binsearch_from fuel e.name dic i j ≡ some e.val
  finds zero i j t e o g f a b l = absurd (omega (arith, f, a, b))
  finds (suc fuel) i j t e o g f a b l =
      let k = (i + j) / 2 in
      let (d, at) = get_inside dic k (omega (arith, a, b, l)) in
      elim (ℕ_discrete t k) [
        | yes q ↦
            let both : some d ≡ some e = sym at ∙ ap (get_elem? dic) (sym q) ∙ g in
            let name : d.name ≡ e.name = ground arith in
            let val : d.val ≡ e.val = ground arith in
            round fuel i j e.name d same (omega (arith, a, b)) at (rw name (keyncmp_self e.name))
            ∙ ap some val
        | no n ↦ elim (Bool-cases (ltb t k)) [
          | inl below ↦
              let less : t < k = ground (arith, below) in
              round fuel i j e.name d negative (omega (arith, a, b)) at
                (in_order_at dic t k e d o less g at)
              ∙ finds fuel i k t e o g (omega (arith, f, a, b)) a less (omega (arith, a, b, l))
          | inr above ↦
              let more : k < t = ground (arith, above, n) in
              round fuel i j e.name d positive (omega (arith, a, b)) at
                (keyncmp_swap d.name e.name (in_order_at dic k t d e o more at g))
              ∙ finds fuel (k + 1) j t e o g (omega (arith, f, a, b)) (omega (arith, more)) b l
        ]
      ]

  misses :
      (fuel i j : ℕ) (name : Bytes)
      → ((t : ℕ) (e : NameValue) → get_elem? dic t ≡ some e → name ≢ e.name)
      → j ≤ fuel + i
      → j ≤ length dic
      → binsearch_from fuel name dic i j ≡ some 0
  unfolding binsearch_from
  misses zero i j name no_entry f l = ground (arith, f)
  misses (suc fuel) i j name no_entry f l = elim (Bool-cases (ltb i j)) [
    | inr past ↦ rw past refl
    | inl more ↦
        let h : i < j = ground (arith, more) in
        let k = (i + j) / 2 in
        let (d, at) = get_inside dic k (omega (arith, h, l)) in
        elim (Sign-cases (keyncmp name d.name)) [
          | inl c ↦
              round fuel i j name d negative h at c
              ∙ misses fuel i k name no_entry (omega (arith, f, h)) (omega (arith, l, h))
          | inr (inl c) ↦ absurd (no_entry k d at (keyncmp-same name d.name c))
          | inr (inr c) ↦
              round fuel i j name d positive h at c
              ∙ misses fuel (k + 1) j name no_entry (omega (arith, f, h)) l
        ]
  ]

-- In a table in order, `binsearch_keyword` ends within the table, and gives the value of each keyword,
-- and 0 for every other word.
pub binsearch_keyword_finds :
    (dic : List NameValue) (name : Bytes)
    → in_order dic ≡ true
    → ((t : ℕ) (e : NameValue)
        → get_elem? dic t ≡ some e
        → binsearch_keyword e.name dic ≡ some e.val)
      × (((t : ℕ) (e : NameValue) → get_elem? dic t ≡ some e → name ≢ e.name)
          → binsearch_keyword name dic ≡ some 0)
unfolding binsearch_keyword
binsearch_keyword_finds dic name o = (
  λ t e g.
      finds dic (length dic) 0 (length dic) t e o g (omega arith) (omega arith)
        (inside_of dic t e g) (omega arith),
  λ no_entry. misses dic (length dic) 0 (length dic) name no_entry (omega arith) (omega arith),
)
