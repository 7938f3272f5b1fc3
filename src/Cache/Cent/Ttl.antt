-- ===== src/Cache/Cent/Ttl.antt =====
-- The limits on the time to live (cache.c, `adjust_ttl`, `adjust_dom_ttl`), and the test whether a
-- set has timed out (cache.h). Times are in seconds and not negative.
use tor_android_service_arch.Cache.Cent.{neg, rr, RrSet, Body, Cent}
use tor_android_service_arch.Prelude.{
  ℕ, ◌+◌, min, ◌≤◌, ◌≡◌, refl, arith, Bool, true, false, ◌&&◌, ltb, if◌then◌else◌, Bool-cases, inl,
  inr,
}

-- The options `min_ttl`, `max_ttl` and `neg_ttl` of the configuration.
pub record Global : Type 0 where
  pub min_ttl : ℕ
  pub max_ttl : ℕ
  pub neg_ttl : ℕ

abbrev pub cache_lat : ℕ
cache_lat = 120

abbrev pub clat_adj : ℕ → ℕ
clat_adj ttl = if ltb ttl cache_lat then cache_lat else ttl

-- `now` is the result of `time(NULL)`.
unfoldable pub timedout : (now : ℕ) → RrSet → Bool
timedout now s = ltb (s.ts + clat_adj s.ttl) now

-- The common part: `ttl` within the limits.
unfoldable pub clamp_ttl : Global → (negative : Bool) → ℕ → ℕ
clamp_ttl g negative ttl =
    let min_ttl = if negative && ltb g.neg_ttl g.min_ttl then g.neg_ttl else g.min_ttl in
    if ltb ttl min_ttl then min_ttl else if ltb g.max_ttl ttl then g.max_ttl else ttl

unfoldable pub adjust_ttl : Global → RrSet → RrSet
unfolding clamp_ttl
adjust_ttl g s =
    if s.flags.nocache
    then record s { ttl = 0; flags = record s.flags { nocache = false } }
    else record s { ttl = clamp_ttl g s.flags.negative s.ttl }

-- Only for a negative entry; of another one the union holds no `ttl`.
abbrev pub set_neg_ttl : Body → (ℕ → ℕ) → Body
set_neg_ttl (neg lent ttl ts) f = neg lent (f ttl) ts
set_neg_ttl (rr mu ext) f = rr mu ext

unfoldable pub adjust_dom_ttl : Global → Cent → Cent
unfolding clamp_ttl
adjust_dom_ttl g c =
    if c.flags.nocache
    then record c { flags = record c.flags { nocache = false }; body = set_neg_ttl c.body (λ t. 0) }
    else record c { body = set_neg_ttl c.body (clamp_ttl g true) }

clamp_ttl_bounds :
    (g : Global) (negative : Bool) (ttl : ℕ)
    → g.min_ttl ≤ g.max_ttl
    → (min g.min_ttl g.neg_ttl ≤ clamp_ttl g negative ttl)
      × (clamp_ttl g negative ttl ≤ g.max_ttl)
      × (negative ≡ false → g.min_ttl ≤ clamp_ttl g negative ttl)
unfolding clamp_ttl
clamp_ttl_bounds g negative ttl h = (ground arith, ground arith, λ n. ground arith)

-- A set that may be cached leaves `adjust_ttl` with a time to live of at most `max_ttl`, and at
-- least `min_ttl` or, for a negative set, the smaller one of `min_ttl` and `neg_ttl`; one that may
-- not, with 0. The other fields but the flag CF_NOCACHE stay.
pub adjust_ttl_bounds :
    (g : Global) (s : RrSet)
    → g.min_ttl ≤ g.max_ttl
    → (s.flags.nocache ≡ true → (adjust_ttl g s).ttl ≡ 0)
      × (s.flags.nocache ≡ false
          → (min g.min_ttl g.neg_ttl ≤ (adjust_ttl g s).ttl)
            × ((adjust_ttl g s).ttl ≤ g.max_ttl)
            × (s.flags.negative ≡ false → g.min_ttl ≤ (adjust_ttl g s).ttl))
      × ((adjust_ttl g s).flags.nocache ≡ false)
      × ((adjust_ttl g s).ts ≡ s.ts)
      × ((adjust_ttl g s).rrs ≡ s.rrs)
unfolding adjust_ttl
adjust_ttl_bounds g s h =
    let bounds = clamp_ttl_bounds g s.flags.negative s.ttl h in
    elim (Bool-cases s.flags.nocache) [
      | inl e ↦ rw (adjust_ttl, e) (λ _. refl, λ n. cc, refl, refl, refl)
      | inr e ↦ rw (adjust_ttl, e) (λ n. cc, λ _. bounds, refl, refl, refl)
    ]
