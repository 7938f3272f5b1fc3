-- ===== src/Message/Match.antt =====
-- The longest common end of two names (dns.c, `domain_match`). The bytes before the position `i` are
-- read by index; a read out of bounds does not happen, and would give 0. `tolower` is that of the C
-- library.
use mathlib.Core.Path.{subst}
use tor_android_service_arch.Names.{Bytes, rhnlen, rhnlen_from}
use tor_android_service_arch.Prelude.{
  ℕ, zero, suc, ◌+◌, ◌-◌, ◌≤◌, ◌<◌, ◌≡◌, refl, sym, ap, ◌∙◌, arith, Bool, true, ◌&&◌, ltb, ◌==◌,
  if◌then◌else◌, List, [], ◌∷◌, Option, none, some, length, get_or, drop, Option-cases, Bool-cases,
  inl, inr,
}

-- "first collect all length bytes", the last one first, with the position of the final zero byte.
-- `none` is a failed assertion, or the end of the buffer.
unfoldable pub collect : ℕ → Bytes → (i : ℕ) → List ℕ → Option (List ℕ × ℕ)
collect zero ms i ls = none
collect (suc fuel) [] i ls = none
collect (suc fuel) (lb ∷ ms) i ls =
    let rest = collect fuel (drop lb ms) (i + 1 + lb) (lb ∷ ls) in
    if lb == 0 then some (ls, i) else if ltb (length ls) 128 then rest else none

module _ (tolower : ℕ → ℕ) where
  -- `for(;lb;--lb) if(tolower(ms[--i]) != tolower(md[--j])) goto mismatch;`
  abbrev pub same_back : (lb : ℕ) → Bytes → Bytes → (i j : ℕ) → Bool
  same_back zero ms md i j = true
  same_back (suc lb) ms md i j =
      tolower (get_or ms (i - 1) 0) == tolower (get_or md (j - 1) 0)
      && same_back lb ms md (i - 1) (j - 1)

  -- The loop on `k`; the result is the length of the match, `*os` and `*od`.
  unfoldable pub match_from : List ℕ → List ℕ → Bytes → Bytes → (i j k : ℕ) → ℕ × ℕ × ℕ
  match_from [] ld ms md i j k = (k, i, j)
  match_from (l ∷ ls) [] ms md i j k = (k, i, j)
  match_from (l ∷ ls) (d ∷ ld) ms md i j k =
      let rest = match_from ls ld ms md (i - l - 1) (j - l - 1) (k + 1) in
      if l == d && same_back l ms md i j then rest else (k, i, j)

  unfoldable pub domain_match : Bytes → Bytes → Option (ℕ × ℕ × ℕ)
  unfolding collect match_from
  domain_match ms md = elim (collect (length ms) ms 0 []) [
    | none ↦ none
    | some (ls, i) ↦ elim (collect (length md) md 0 []) [
      | none ↦ none
      | some (ld, j) ↦ some (match_from ls ld ms md i j 0)
    ]
  ]

-- The length bytes are those of labels that end at `i`.
abbrev pub Spans : List ℕ → ℕ → Type 0
Spans [] i = i ≡ 0
Spans (l ∷ ls) i = (1 ≤ l) × (l + 1 ≤ i) × Spans ls (i - l - 1)

abbrev SpansOpt : Option (List ℕ × ℕ) → Type 0
SpansOpt none = Unit
SpansOpt (some r) = Spans r.0 r.1

collect-Spans :
    (fuel : ℕ) (ms : Bytes) (i : ℕ) (ls : List ℕ) {r : List ℕ × ℕ}
    → Spans ls i
    → collect fuel ms i ls ≡ some r
    → Spans r.0 r.1
unfolding collect
collect-Spans zero ms i ls {r} s e = cc
collect-Spans (suc fuel) [] i ls {r} s e = cc
collect-Spans (suc fuel) (lb ∷ ms) i ls {r} s e = elim (Bool-cases (lb == 0)) [
  | inl z ↦ subst SpansOpt (rw z at e) s
  | inr z ↦ elim (Bool-cases (ltb (length ls) 128)) [
    | inl few ↦
        let back : i + 1 + lb - lb - 1 ≡ i = omega arith in
        collect-Spans fuel (drop lb ms) (i + 1 + lb) (lb ∷ ls)
          (ground arith, omega arith, rw back s) (rw (z, few) at e)
    | inr many ↦ let f = rw (z, many) at e in absurd cc
  ]
]

abbrev len_opt : Option (List ℕ × ℕ) → Option ℕ
len_opt none = none
len_opt (some r) = some (r.1 + 1)

-- The zero byte that `collect` finds is the last byte of the name.
collect_rhnlen :
    (fuel : ℕ) (ms : Bytes) (i : ℕ) (ls : List ℕ) {r : List ℕ × ℕ}
    → collect fuel ms i ls ≡ some r
    → rhnlen_from fuel i ms ≡ some (r.1 + 1)
unfolding collect rhnlen_from
collect_rhnlen zero ms i ls {r} e = cc
collect_rhnlen (suc fuel) [] i ls {r} e = cc
collect_rhnlen (suc fuel) (lb ∷ ms) i ls {r} e = elim (Bool-cases (lb == 0)) [
  | inl z ↦ let f = ap len_opt (rw z at e) in rw z f
  | inr z ↦ elim (Bool-cases (ltb (length ls) 128)) [
    | inl few ↦ rw z (collect_rhnlen fuel (drop lb ms) (i + 1 + lb) (lb ∷ ls) (rw (z, few) at e))
    | inr many ↦ let f = rw (z, many) at e in absurd cc
  ]
]

module _ (tolower : ℕ → ℕ) where
  match_from_bounds :
      (ls ld : List ℕ) (ms md : Bytes) (i j k : ℕ)
      → Spans ls i
      → (k ≤ (match_from tolower ls ld ms md i j k).0)
        × ((match_from tolower ls ld ms md i j k).1 ≤ i)
        × (k < (match_from tolower ls ld ms md i j k).0
            → (match_from tolower ls ld ms md i j k).1 + 2 ≤ i)
  unfolding match_from
  match_from_bounds [] ld ms md i j k s = (omega arith, omega arith, λ h. omega arith)
  match_from_bounds (l ∷ ls) [] ms md i j k s = (omega arith, omega arith, λ h. omega arith)
  match_from_bounds (l ∷ ls) (d ∷ ld) ms md i j k s =
      let rest = match_from_bounds ls ld ms md (i - l - 1) (j - l - 1) (k + 1) s.2 in
      elim (Bool-cases (l == d && same_back tolower l ms md i j)) [
        | inl h ↦ rw h (omega (arith, rest), omega (arith, rest), λ g. omega (arith, rest, s))
        | inr h ↦ rw h (omega arith, omega arith, λ g. omega arith)
      ]

  abbrev Bounded : ℕ → Option (ℕ × ℕ × ℕ) → Type 0
  Bounded ilen none = Unit
  Bounded ilen (some (k, os, od)) = (os < ilen) × (0 < k → os + 2 ≤ ilen)

  -- A match of one label or more leaves room for a pointer in front of the end of the name.
  pub domain_match_bounds :
      (ms md : Bytes) (ilen k os od : ℕ)
      → rhnlen ms ≡ some ilen
      → domain_match tolower ms md ≡ some (k, os, od)
      → (os < ilen) × (0 < k → os + 2 ≤ ilen)
  unfolding domain_match rhnlen
  domain_match_bounds ms md ilen k os od n e = elim (Option-cases (collect (length ms) ms 0 [])) [
    | inl f ↦ let g = rw (domain_match, f) at e in absurd cc
    | inr ((ls, i), f) ↦ elim (Option-cases (collect (length md) md 0 [])) [
      | inl f' ↦ let g = rw (domain_match, f, f') at e in absurd cc
      | inr ((ld, j), f') ↦
          let g = rw (domain_match, f, f') at e in
          let spans = collect-Spans (length ms) ms 0 [] refl f in
          let len = collect_rhnlen (length ms) ms 0 [] f in
          let bounds = match_from_bounds ls ld ms md i j 0 spans in
          let both : some (i + 1) ≡ some ilen = sym len ∙ n in
          let same : i + 1 ≡ ilen = ground arith in
          subst (Bounded ilen) g (omega (arith, bounds.1), λ h. omega (arith, bounds.2 h))
    ]
  ]
