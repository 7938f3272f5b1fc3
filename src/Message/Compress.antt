-- ===== src/Message/Compress.antt =====
-- Compressed names (dns.c, `compress_name`). The list `cb` of the names that the packet holds is a
-- list in the order of `dlist_first` and `dlist_next`.
use tor_android_service_arch.Message.Match.{domain_match, domain_match_bounds}
use tor_android_service_arch.Names.{Bytes, dnsnamebufsize, rhnlen}
use tor_android_service_arch.Prelude.{
  ℕ, ◌+◌, ◌/◌, ◌%◌, ◌≤◌, ◌<◌, ◌≡◌, arith, Bool, true, false, ◌&&◌, not, leb, ltb, ◌==◌,
  if◌then◌else◌, List, [], ◌∷◌, ◌++◌, Option, none, some, take, Bool-cases, Option-cases, inl, inr,
}

pub record Compel : Type 0 where
  pub index : ℕ
  pub s : Bytes

pub record Compressed : Type 0 where
  pub len : ℕ
  pub out : Bytes
  pub cb : List Compel

module _ (tolower : ℕ → ℕ) where
  -- The loop over the list: `longest`, `lrem` and `coffs`; `none` is a failed assertion.
  unfoldable pub find_best : List Compel → Bytes → (longest lrem coffs : ℕ) → Option (ℕ × ℕ × ℕ)
  find_best [] name longest lrem coffs = some (longest, lrem, coffs)
  find_best (ci ∷ cb) name longest lrem coffs = elim (domain_match tolower name ci.s) [
    | none ↦ none
    | some (rv, rem, to) ↦
        if ltb longest rv && leb (ci.index + to) 0x3fff
        then find_best cb name rv rem (ci.index + to)
        else find_best cb name longest lrem coffs
  ]

  -- Part 2; without memory the list is freed and 0 returned.
  abbrev pub add_name :
      (allocated add : Bool) → Bytes → (ilen offs rl : ℕ) → Bytes → List Compel → Compressed
  add_name allocated false name ilen offs rl out cb = record { len = rl; out = out; cb = cb }
  add_name true true name ilen offs rl out cb = record {
    len = rl;
    out = out;
    cb = cb ++ record { index = offs; s = take ilen name } ∷ [];
  }
  add_name false true name ilen offs rl out cb = record { len = 0; out = out; cb = [] }

  unfoldable pub write_name :
      (allocated : Bool) → Bytes → (ilen offs : ℕ) → List Compel → ℕ × ℕ × ℕ → Option Compressed
  write_name allocated name ilen offs cb (longest, lrem, coffs) =
      if ltb 0 longest
      then (if leb (lrem + 2) ilen
          then some (
              add_name allocated (not (lrem == 0)) name ilen offs (lrem + 2)
                (take lrem name ++ (0xc0 + coffs / 256 % 64) ∷ coffs % 256 ∷ []) cb)
          else none)
      else some (add_name allocated true name ilen offs ilen (take ilen name) cb)

  -- `none` is a failed assertion, or a name without an end.
  unfoldable pub compress_name :
      (allocated : Bool) → Bytes → (offs : ℕ) → List Compel → Option Compressed
  unfolding find_best write_name
  compress_name allocated name offs cb = elim (rhnlen name) [
    | none ↦ none
    | some ilen ↦
        if leb ilen dnsnamebufsize
        then elim (find_best cb name 0 0 0) [
          | none ↦ none
          | some best ↦ write_name allocated name ilen offs cb best
        ]
        else none
  ]

  pub find_best_fits :
      (cb : List Compel) (name : Bytes) (ilen longest lrem coffs l r o : ℕ)
      → rhnlen name ≡ some ilen
      → (0 < longest → lrem + 2 ≤ ilen)
      → find_best cb name longest lrem coffs ≡ some (l, r, o)
      → 0 < l
      → r + 2 ≤ ilen
  unfolding find_best
  find_best_fits [] name ilen longest lrem coffs l r o n h e = ground arith
  find_best_fits (ci ∷ cb) name ilen longest lrem coffs l r o n h e =
      elim (Option-cases (domain_match tolower name ci.s)) [
        | inl f ↦ let g = rw (find_best, f) at e in absurd cc
        | inr ((rv, rem, to), f) ↦
            let bounds = domain_match_bounds tolower name ci.s ilen rv rem to n f in
            elim (Bool-cases (ltb longest rv && leb (ci.index + to) 0x3fff)) [
              | inl b ↦
                  find_best_fits cb name ilen rv rem (ci.index + to) l r o n bounds.1
                    (rw (find_best, f, b) at e)
              | inr b ↦
                  find_best_fits cb name ilen longest lrem coffs l r o n h
                    (rw (find_best, f, b) at e)
            ]
      ]
