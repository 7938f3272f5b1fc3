-- ===== src/Cache/Cent/Purge.antt =====
-- Removing record sets that have timed out (cache.c, `purge_rrset`, `purge_all_rrsets`), making an
-- entry be fetched again (`invalidate_record`), and setting its flags (`set_cent_flags`).
use tor_android_service_arch.Cache.Cent.{
  CentFlags, Sizes, nrrmu, nrrext, neg, rr, RrSet, Slots, Body, Cent, with_body, slot, rrarr_len,
  no_auth, del_cent_rrset_by_index,
}
use tor_android_service_arch.Cache.Cent.Ttl.{timedout}
use tor_android_service_arch.Prelude.{
  ℕ, zero, suc, ◌+◌, ◌-◌, ◌*◌, Bool, true, false, ◌&&◌, ◌||◌, not, leb, ◌==◌, if◌then◌else◌, List,
  [], ◌∷◌, ◌++◌, Option, none, some,
}

-- "well, it must go"
abbrev pub must_go : (now : ℕ) → Option RrSet → Bool
must_go now none = false
must_go now (some s) = not (s.flags.nopurge || s.flags.local) && timedout now s

abbrev pub is_some : Option RrSet → Bool
is_some none = false
is_some (some s) = true

-- The counters of `purge_all_rrsets`, the entry, what is subtracted from `cache_size`, and the
-- list entries removed.
pub record Purged : Type 0 where
  pub rv : ℕ
  pub numrrs : ℕ
  pub numrrext : ℕ
  pub cent : Cent
  pub freed : ℕ
  pub unlinked : List ℕ

module _ (sz : Sizes) (now : ℕ) (test : Bool) where
  unfoldable pub purge_rrset : Cent → ℕ → Purged
  purge_rrset c idx =
      if must_go now (slot c idx)
      then (if test
          then record { rv = 1; numrrs = 0; numrrext = 0; cent = c; freed = 0; unlinked = [] }
          else let r = del_cent_rrset_by_index sz c idx in
            record {
              rv = 1;
              numrrs = 0;
              numrrext = 0;
              cent = r.cent;
              freed = r.ret;
              unlinked = r.unlinked;
            })
      else record { rv = 0; numrrs = 0; numrrext = 0; cent = c; freed = 0; unlinked = [] }

  -- The body of the loop.
  unfoldable pub purge_step : Purged → ℕ → Purged
  purge_step p i =
      if must_go now (slot p.cent i)
      then (if test
          then record p { rv = p.rv + 1 }
          else let r = del_cent_rrset_by_index sz p.cent i in
            record p {
              rv = p.rv + 1;
              cent = r.cent;
              freed = p.freed + r.ret;
              unlinked = p.unlinked ++ r.unlinked;
            })
      else if is_some (slot p.cent i)
      then record p {
        numrrs = p.numrrs + 1;
        numrrext = if leb nrrmu i then p.numrrext + 1 else p.numrrext;
      }
      else p

  unfoldable pub purge_loop : (left i : ℕ) → Purged → Purged
  unfolding purge_step
  purge_loop zero i p = p
  purge_loop (suc left) i p = purge_loop left (i + 1) (purge_step p i)

  -- "If the array of less frequently used RRs has become empty, free it."
  unfoldable pub drop_rrext : Purged → Body → Purged
  drop_rrext p (neg lent ttl ts) = p
  drop_rrext p (rr mu none) = p
  drop_rrext p (rr mu (some ext)) =
      if p.numrrext == 0
      then (if test then record p { rv = p.rv + 1 } else record p {
        rv = p.rv + 1;
        cent =
            with_body p.cent (p.cent.cs - sz.pointer * nrrext) p.cent.num_rrs p.cent.flags
              (rr mu none);
        freed = p.freed + sz.pointer * nrrext;
      })
      else p

  unfoldable pub purge_all_rrsets : Cent → Purged
  unfolding purge_loop drop_rrext
  purge_all_rrsets c =
      let p =
        purge_loop (rrarr_len c.body) 0
          (record { rv = 0; numrrs = 0; numrrext = 0; cent = c; freed = 0; unlinked = [] }) in
      drop_rrext p p.cent.body

abbrev invalidate_set : Option RrSet → Option RrSet
invalidate_set none = none
invalidate_set (some s) = some (record s { ts = 0; flags = record s.flags { auth = false } })

abbrev pub invalidate_slots : Slots → Slots
invalidate_slots [] = []
invalidate_slots (s ∷ ss) = invalidate_set s ∷ invalidate_slots ss

abbrev pub invalidate_body : Body → Body
invalidate_body (neg lent ttl ts) = neg lent ttl 0
invalidate_body (rr mu none) = rr (invalidate_slots mu) none
invalidate_body (rr mu (some ext)) = rr (invalidate_slots mu) (some (invalidate_slots ext))

-- `invalidate_record` on the entry that the lookup finds.
unfoldable pub invalidate_cent : Cent → Cent
invalidate_cent c = record c { flags = no_auth c.flags; body = invalidate_body c.body }

-- `|=` on the flags of an entry
abbrev pub or_flags : CentFlags → CentFlags → CentFlags
or_flags f g = record {
  local = f.local || g.local;
  auth = f.auth || g.auth;
  nocache = f.nocache || g.nocache;
  wild = f.wild || g.wild;
}

-- `set_cent_flags` on what the lookup finds; `none` is the return value 0. DF_NEGATIVE is not among
-- the flags, as the code's comment demands.
unfoldable pub set_cent_flags : Option Cent → CentFlags → Option Cent
set_cent_flags none flags = none
set_cent_flags (some c) flags = some (record c { flags = or_flags c.flags flags })
