-- ===== src/Cache/Store/Above.antt =====
-- The search of `lookup_cache` on a proper name, against a description on its list of labels.
use mathlib.Core.Path.{subst}
use tor_android_service_arch.Cache.Cent.{Cent}
use tor_android_service_arch.Cache.Store.{find_cent, is_negative}
use tor_android_service_arch.Cache.Store.Look.{
  no_wild, w_wild, w_neg, w_locnerr, Hit, nothing, at_end, asterisk, found_wild, found_above, visit,
  search_up, search,
}
use tor_android_service_arch.Names.{Bytes, dnsnamebufsize, rhncpy}
use tor_android_service_arch.Names.Walk.{walk-encode}
use tor_android_service_arch.Names.Wire.{Label, encode, IsName, drop-append}
use tor_android_service_arch.Prelude.{
  ℕ, zero, suc, ◌+◌, leb, ◌≤◌, ◌≡◌, refl, ap, ◌∙◌, arith, Bool, true, false, ◌==◌, if◌then◌else◌,
  List, [], ◌∷◌, append-nil, Option, none, some, length, length-append, drop, Option-cases, inl,
  inr,
}

module _ (same : Bytes → Bytes → Bool) (cs : List Cent) where
  -- The nearest ancestor in the cache decides: a negative one denies the name, below one with
  -- wildcards the name "*" counts, and below a local one the name is not there.
  abbrev pub stands_for : List Label → Cent → Hit
  stands_for ls c =
      if is_negative c.body
      then record { cent = some c; wild = w_neg }
      else if c.flags.wild
      then elim (find_cent same (encode ((asterisk ∷ []) ∷ ls)) cs) [
        | none ↦ nothing
        | some ce ↦ record { cent = some ce; wild = w_wild }
      ]
      else if c.flags.local
      then record { cent = some c; wild = w_locnerr }
      else nothing

  abbrev pub by_ancestor : List Label → Hit
  by_ancestor [] = nothing
  by_ancestor (l ∷ []) = nothing
  by_ancestor (l ∷ m ∷ ls) = elim (find_cent same (encode (m ∷ ls)) cs) [
    | none ↦ by_ancestor (m ∷ ls)
    | some c ↦ stands_for (m ∷ ls) c
  ]

  abbrev pub by_name : (wild : Bool) → List Label → Hit
  by_name wild ls = elim (find_cent same (encode ls) cs) [
    | some c ↦ record { cent = some c; wild = no_wild }
    | none ↦ if wild then by_ancestor ls else nothing
  ]

  copied_name :
      (ls : List Label)
      → IsName ls
      → length (encode ls) ≤ dnsnamebufsize
      → rhncpy (encode ls) ≡ some (encode ls, length (encode ls))
  copied_name ls n h =
      subst (λ (name : Bytes). rhncpy name ≡ some (encode ls, length (encode ls)))
        (append-nil (encode ls)) ((walk-encode ls [] n).3 h)

  if_some :
      (t : Bool) (o o' : Option Hit) (x y : Hit)
      → o ≡ some x
      → o' ≡ some y
      → (if t then o else o') ≡ some (if t then x else y)
  if_some true o o' x y e f = e
  if_some false o o' x y e f = f

  found_wild-encode :
      (ls : List Label)
      → IsName ls
      → 2 + length (encode ls) ≤ dnsnamebufsize
      → found_wild same (encode ls) cs
        ≡ some (elim (find_cent same (encode ((asterisk ∷ []) ∷ ls)) cs) [
          | none ↦ nothing
          | some ce ↦ record { cent = some ce; wild = w_wild }
        ])
  found_wild-encode ls n h =
      let copied = copied_name ls n (omega (arith, h)) in
      let room : leb (2 + length (encode ls)) dnsnamebufsize ≡ true = ground (arith, h) in
      elim (Option-cases (find_cent same (encode ((asterisk ∷ []) ∷ ls)) cs)) [
        | inl e ↦ rw (found_wild, copied, room, e) refl
        | inr (c, e) ↦ rw (found_wild, copied, room, e) refl
      ]

  found_above-encode :
      (ls : List Label) (c : Cent)
      → IsName ls
      → 2 + length (encode ls) ≤ dnsnamebufsize
      → found_above same (encode ls) cs c ≡ some (stands_for ls c)
  found_above-encode ls c n h = if_some (is_negative c.body) _ _ _ _ refl (
      if_some c.flags.wild _ _ _ _ (found_wild-encode ls n h)
        (if_some c.flags.local _ _ _ _ refl refl))

  search_up_next :
      (fuel lb : ℕ) (nm nm' : Bytes)
      → drop lb nm ≡ nm'
      → (lb == 0) ≡ false
      → search_up same (suc fuel) (lb ∷ nm) cs ≡ visit same nm' cs (search_up same fuel nm' cs)
  unfolding search_up
  search_up_next fuel lb nm nm' e z =
      rw z (ap (λ (n : Bytes). visit same n cs (search_up same fuel n cs)) e)

  visit_by :
      (nm : Bytes) (rest : Option Hit) (x : Hit) (f : Cent → Hit)
      → at_end nm ≡ false
      → rest ≡ some x
      → ((c : Cent) → found_above same nm cs c ≡ some (f c))
      → visit same nm cs rest ≡ some (elim (find_cent same nm cs) [ none ↦ x | some c ↦ f c ])
  visit_by nm rest x f z e g = elim (Option-cases (find_cent same nm cs)) [
    | inl h ↦ rw (z, h) e
    | inr (c, h) ↦ rw (z, h) (g c)
  ]

  search_up-encode :
      (fuel : ℕ) (ls : List Label)
      → IsName ls
      → length (encode ls) ≤ fuel
      → length (encode ls) ≤ dnsnamebufsize
      → search_up same fuel (encode ls) cs ≡ some (by_ancestor ls)
  unfolding search_up
  search_up-encode zero [] n f h = absurd (omega (arith, f))
  search_up-encode zero (l ∷ ls) n f h = absurd (omega (arith, f))
  search_up-encode (suc fuel) [] n f h = refl
  search_up-encode (suc fuel) (l ∷ []) n f h =
      let parts = length-append l (encode []) in
      let rest = search_up-encode fuel [] tt (omega (arith, f, parts)) (omega (arith, h, parts)) in
      let z : (length l == 0) ≡ false = ground (arith, n.0) in
      search_up_next fuel (length l) _ _ (drop-append l (encode [])) z ∙ rest
  search_up-encode (suc fuel) (l ∷ m ∷ ls) n f h =
      let parts = length-append l (encode (m ∷ ls)) in
      let fits : length (encode (m ∷ ls)) ≤ dnsnamebufsize = omega (arith, h, parts) in
      let rest = search_up-encode fuel (m ∷ ls) n.2 (omega (arith, f, parts)) fits in
      let z : (length l == 0) ≡ false = ground (arith, n.0) in
      let z' : (length m == 0) ≡ false = ground (arith, n.2.0) in
      search_up_next fuel (length l) _ _ (drop-append l (encode (m ∷ ls))) z
      ∙ visit_by (encode (m ∷ ls)) _ _ (stands_for (m ∷ ls)) z' rest
          (λ c. found_above-encode (m ∷ ls) c n.2 (omega (arith, h, parts, n.0)))

  -- On a proper name that fits into a buffer, the search ends, and gives the entry of the name or,
  -- where that is not there and wildcards are asked for, what its nearest ancestor stands for.
  pub search-encode :
      (wild : Bool) (ls : List Label)
      → IsName ls
      → length (encode ls) ≤ dnsnamebufsize
      → search same wild (encode ls) cs ≡ some (by_name wild ls)
  unfolding search
  search-encode wild ls n h = elim (Option-cases (find_cent same (encode ls) cs)) [
    | inl e ↦
        rw (search, by_name, e)
          (if_some wild _ _ _ _ (search_up-encode (length (encode ls)) ls n (omega arith) h) refl)
    | inr (c, e) ↦ rw (search, by_name, e) refl
  ]
