-- ===== src/Cache/Store/Found.antt =====
-- What a search of `lookup_cache` finds is in the cache.
use tor_android_service_arch.Cache.Cent.{Cent}
use tor_android_service_arch.Cache.Store.{find_cent, is_negative}
use tor_android_service_arch.Cache.Store.Books.{FoundAs, find_cent-qname}
use tor_android_service_arch.Cache.Store.Look.{
  Hit, at_end, asterisk, found_wild, found_above, search_up, search,
}
use tor_android_service_arch.Names.{Bytes, dnsnamebufsize, rhncpy}
use tor_android_service_arch.Names.Same.{IsEquivalence}
use tor_android_service_arch.Prelude.{
  ℕ, zero, suc, ◌+◌, leb, Bool-cases, ◌≡◌, Bool, true, false, ◌==◌, if◌then◌else◌, List, [], ◌∷◌,
  Option, none, some, length, drop, Option-cases, inl, inr,
}

module _ (same : Bytes → Bytes → Bool) where
  -- What a lookup has found is in the cache, under its own name.
  abbrev pub FoundIn : List Cent → Option Hit → Type 0
  FoundIn cs none = Unit
  FoundIn cs (some f) = FoundAs same cs f.cent

  find_cent-FoundAs :
      (key : Bytes) (cs : List Cent) → IsEquivalence same → FoundAs same cs (find_cent same key cs)
  find_cent-FoundAs key cs q = elim (Option-cases (find_cent same key cs)) [
    | inl e ↦ rw e tt
    | inr (c, e) ↦ rw e (find_cent-qname same key c cs q e)
  ]

  if-FoundIn :
      (t : Bool) (cs : List Cent) (o o' : Option Hit)
      → FoundIn cs o
      → FoundIn cs o'
      → FoundIn cs (if t then o else o')
  if-FoundIn true cs o o' h h' = h
  if-FoundIn false cs o o' h h' = h'

  found_wild-FoundIn :
      (nm : Bytes) (cs : List Cent) → IsEquivalence same → FoundIn cs (found_wild same nm cs)
  found_wild-FoundIn nm cs q = elim (Option-cases (rhncpy nm)) [
    | inl e ↦ rw (found_wild, e) tt
    | inr ((nm', len), e) ↦ elim (Bool-cases (leb (2 + len) dnsnamebufsize)) [
      | inl z ↦ elim (Option-cases (find_cent same (1 ∷ asterisk ∷ nm') cs)) [
        | inl f ↦ rw (found_wild, e, z, f) tt
        | inr (c, f) ↦ rw (found_wild, e, z, f) (find_cent-qname same _ c cs q f)
      ]
      | inr z ↦ rw (found_wild, e, z) tt
    ]
  ]

  found_above-FoundIn :
      (nm : Bytes) (cs : List Cent) (c : Cent)
      → IsEquivalence same
      → find_cent same nm cs ≡ some c
      → FoundIn cs (found_above same nm cs c)
  found_above-FoundIn nm cs c q e =
      let here = find_cent-qname same nm c cs q e in
      if-FoundIn (is_negative c.body) cs _ _ here (
        if-FoundIn c.flags.wild cs _ _ (found_wild-FoundIn nm cs q)
          (if-FoundIn c.flags.local cs _ _ here tt))

  search_up-FoundIn :
      (fuel : ℕ) (nm : Bytes) (cs : List Cent)
      → IsEquivalence same
      → FoundIn cs (search_up same fuel nm cs)
  unfolding search_up
  search_up-FoundIn zero nm cs q = tt
  search_up-FoundIn (suc fuel) [] cs q = tt
  search_up-FoundIn (suc fuel) (lb ∷ nm) cs q =
      let rest = search_up-FoundIn fuel (drop lb nm) cs q in
      if-FoundIn (lb == 0) cs _ _ tt (
        if-FoundIn (at_end (drop lb nm)) cs _ _ rest
          (elim (Option-cases (find_cent same (drop lb nm) cs)) [
            | inl e ↦ rw e rest
            | inr (c, e) ↦ rw e (found_above-FoundIn (drop lb nm) cs c q e)
          ]))

  pub search-FoundIn :
      (wild : Bool) (name : Bytes) (cs : List Cent)
      → IsEquivalence same
      → FoundIn cs (search same wild name cs)
  unfolding search
  search-FoundIn wild name cs q = elim (Option-cases (find_cent same name cs)) [
    | inl e ↦ rw (search, e) (if-FoundIn wild cs _ _ (search_up-FoundIn (length name) name cs q) tt)
    | inr (c, e) ↦ rw (search, e) (find_cent-qname same name c cs q e)
  ]
