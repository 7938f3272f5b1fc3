-- ===== src/Reply.antt =====
-- The records of a server's reply (dns_query.c, `rr_to_cache`, `rrs2cent`, `lookup_cent_array` and
-- `soa_minimum`). `centa`, a dynamic array of entries, is their list. The message is the list of
-- its bytes, a pointer into it its offset; a read behind the message and a write behind a buffer are
-- faults. The build is that of rr_types.h, where every IS_CACHED_… is 1, and without
-- RFC2181_ME_HARDER. `same` is `rhnicmp`, `sz` the `sizeof`s.
pub mod Rdata
pub mod Records
pub mod Bounded
pub mod RdataInBounds
pub mod Entries
pub mod Sound
pub mod Stored
pub mod Transcribed
pub mod Sections
pub mod SectionsRead
pub mod Rcodes
pub mod Refs
pub mod RefsBounded
mod Tests
use tor_android_service_arch.Query.{rc_fatalerr}
use tor_android_service_arch.Cache.Cent.Records.{add_cent_rr}
use tor_android_service_arch.Cache.Cent.{
  Sizes, SetFlags, CentFlags, RrSet, Cent, Outcome, init_cent,
}
use tor_android_service_arch.Names.{Bytes, skiprhn}
use tor_android_service_arch.Prelude.{
  ℕ, ◌+◌, ◌*◌, Bool, false, ◌||◌, ◌==◌, if◌then◌else◌, List, [], ◌∷◌, ◌++◌, Option, none, some,
  length, drop,
}

abbrev pub t_soa : ℕ
t_soa = 6

-- The outcomes of the calls of `malloc` for one record: the buffer `rbuf`, the array, the entry, and
-- the three of `add_cent_rr`.
pub record Mallocs : Type 0 where
  pub rbuf : Bool
  pub grown : Bool
  pub cent : Bool
  pub rr : Bool
  pub ext : Bool
  pub set : Bool

-- A record to be added: its index `rrlkuptab[type-T_MIN]`, and what is stored of it.
pub record NewRr : Type 0 where
  pub oname : Bytes
  pub idx : ℕ
  pub ttl : ℕ
  pub rdata : Bytes

-- The flags 0
abbrev pub zero_flags : CentFlags
zero_flags = record { local = false; auth = false; nocache = false; wild = false }

module _ (same : Bytes → Bytes → Bool) where
  -- Is there an entry for the name?
  abbrev pub has_cent : Bytes → List Cent → Bool
  has_cent nm [] = false
  has_cent nm (c ∷ cs) = same c.qname nm || has_cent nm cs

  unfoldable pub lookup_cent_array : List Cent → Bytes → Option Cent
  lookup_cent_array [] nm = none
  lookup_cent_array (c ∷ cs) nm = if same c.qname nm then some c else lookup_cent_array cs nm

module _ (sz : Sizes) (flags : SetFlags) (queryts : ℕ) where
  abbrev pub add_to_cent : Mallocs → NewRr → Cent → Outcome
  add_to_cent al n c = add_cent_rr sz al.rr al.ext al.set c n.idx n.ttl queryts flags n.rdata

  abbrev pub rc_of : Outcome → ℕ
  rc_of r = if r.ret == 0 then rc_fatalerr else 0

  -- The entry for a name that has none yet.
  abbrev pub grow_centa : Mallocs → NewRr → List Cent → Option Cent → ℕ × List Cent
  grow_centa al n centa none = (rc_fatalerr, centa)
  grow_centa al n centa (some c) = let r = add_to_cent al n c in (rc_of r, centa ++ r.cent ∷ [])

  module _ (same : Bytes → Bytes → Bool) where
    -- The loop: the first entry for the name.
    abbrev pub add_to_first : Mallocs → NewRr → List Cent → ℕ × List Cent
    add_to_first al n [] = (rc_fatalerr, [])
    add_to_first al n (c ∷ cs) =
        let rest = add_to_first al n cs in
        let r = add_to_cent al n c in
        if same c.qname n.oname then (rc_of r, r.cent ∷ cs) else (rest.0, c ∷ rest.1)

    -- The return value, and the array; an array that cannot grow is freed.
    unfoldable pub rr_to_cache : Mallocs → NewRr → List Cent → ℕ × List Cent
    unfolding add_cent_rr init_cent
    rr_to_cache al n centa =
        if has_cent same n.oname centa
        then add_to_first al n centa
        else if al.grown
        then grow_centa al n centa
            (init_cent sz al.cent false n.oname (length n.oname) 0 0 zero_flags)
        else (rc_fatalerr, [])

-- The 32 bits in network order, from the bytes of a record; `none` is a read behind them.
abbrev pub getint32 : Bytes → Option ℕ
getint32 (a ∷ b ∷ c ∷ d ∷ bs) = some (((a * 256 + b) * 256 + c) * 256 + d)
getint32 _ = none

abbrev pub minimum_at : Option Bytes → Option ℕ
minimum_at none = none
minimum_at (some p) = getint32 (drop 16 p)

-- Behind the owner, at the maintainer.
abbrev pub skip_maintainer : Option Bytes → Option ℕ
skip_maintainer none = none
skip_maintainer (some p) = minimum_at (skiprhn p)

unfoldable pub soa_minimum : Bytes → Option ℕ
unfolding skiprhn
soa_minimum rdata = skip_maintainer (skiprhn rdata)
