-- ===== src/Cache/Cent.antt =====
-- Cache entries and their record sets (cache.c, from `init_cent` to `negate_cent`, and the types of
-- cache.h). A pointer to an entry of the list `rrset_l` is a number, `lent`; where the code calls
-- `remove_rrl`, the operations here return that number in `unlinked`. The outcome of each
-- `malloc` is a Boolean argument. The `sizeof`s of the machine are a parameter, `Sizes`. The union
-- of an entry is a data type, whose constructor is the bit DF_NEGATIVE.
pub mod Records
pub mod Accounts
pub mod Add
pub mod Copy
pub mod Negate
pub mod Slots
pub mod Purge
pub mod PurgeBooks
pub mod Conflict
pub mod Ttl
pub mod Tests
use tor_android_service_arch.Names.{Bytes, rhnlen}
use tor_android_service_arch.Prelude.{
  ℕ, leb, ◌&&◌, zero, suc, ◌+◌, ◌-◌, ◌*◌, Bool, true, false, ◌&&◌, not, ltb, ◌==◌, if◌then◌else◌,
  List, [], ◌∷◌, ◌++◌, Option, none, some, length, get_or, set, replicate,
}

pub record Sizes : Type 0 where
  pub cent : ℕ
  pub rr_set : ℕ
  pub rr_bucket : ℕ
  pub pointer : ℕ

-- rr_types.h
abbrev pub nrrmu : ℕ
nrrmu = 8

abbrev pub nrrext : ℕ
nrrext = 39

-- The bits CF_… of a record set.
pub record SetFlags : Type 0 where
  pub negative : Bool
  pub local : Bool
  pub auth : Bool
  pub nocache : Bool
  pub additional : Bool
  pub nopurge : Bool
  pub rootserv : Bool

-- The bits DF_… of an entry, without DF_NEGATIVE.
pub record CentFlags : Type 0 where
  pub local : Bool
  pub auth : Bool
  pub nocache : Bool
  pub wild : Bool

-- A record is its data, of length `rdlen`.
pub record RrSet : Type 0 where
  pub lent : Option ℕ
  pub ttl : ℕ
  pub ts : ℕ
  pub flags : SetFlags
  pub rrs : List Bytes

abbrev pub Slots : Type 0
Slots = List (Option RrSet)

pub data Body : Type 0 where
  neg : (lent : Option ℕ) (ttl ts : ℕ) → Body
  rr : (rrmu : Slots) (rrext : Option Slots) → Body

-- `c_ns` and `c_soa` are `none` for `cundef`.
pub record Cent : Type 0 where
  pub qname : Bytes
  pub cs : ℕ
  pub num_rrs : ℕ
  pub flags : CentFlags
  pub body : Body
  pub c_ns : Option ℕ
  pub c_soa : Option ℕ

abbrev pub with_body : Cent → (cs num_rrs : ℕ) → CentFlags → Body → Cent
with_body c cs num_rrs flags body = record {
  qname = c.qname;
  cs = cs;
  num_rrs = num_rrs;
  flags = flags;
  body = body;
  c_ns = c.c_ns;
  c_soa = c.c_soa;
}

abbrev pub no_auth : CentFlags → CentFlags
no_auth f = record { local = f.local; auth = false; nocache = f.nocache; wild = f.wild }

abbrev pub empty_body : Body
empty_body = rr (replicate nrrmu none) none

abbrev pub slot_of_body : Body → ℕ → Option RrSet
slot_of_body (neg lent ttl ts) i = none
slot_of_body (rr mu none) i = if ltb i nrrmu then get_or mu i none else none
slot_of_body (rr mu (some ext)) i =
    if ltb i nrrmu then get_or mu i none else get_or ext (i - nrrmu) none

-- RRARR_INDEX_TESTEXT, and RRARR_INDEX where an index is in range
abbrev pub slot : Cent → ℕ → Option RrSet
slot c i = slot_of_body c.body i

-- The write through RRARR_INDEX_PA; there is nothing to write to in a missing array.
abbrev pub put_body : Body → ℕ → Option RrSet → Body
put_body (neg lent ttl ts) i v = neg lent ttl ts
put_body (rr mu none) i v = if ltb i nrrmu then rr (set mu i v) none else rr mu none
put_body (rr mu (some ext)) i v =
    if ltb i nrrmu then rr (set mu i v) (some ext) else rr mu (some (set ext (i - nrrmu) v))

-- RRARR_LEN
abbrev pub rrarr_len : Body → ℕ
rrarr_len (neg lent ttl ts) = 0
rrarr_len (rr mu none) = nrrmu
rrarr_len (rr mu (some ext)) = nrrmu + nrrext

-- A list of the entry `lent` points to, if it points to one.
abbrev pub unlink : Option ℕ → List ℕ
unlink none = []
unlink (some le) = le ∷ []

-- `none` is the return value 0. `qname` is a name of `namesz` bytes.
unfoldable pub init_cent :
    Sizes
    → (allocated negative : Bool) (qname : Bytes) (namesz ttl ts : ℕ) → CentFlags
    → Option Cent
init_cent sz allocated negative qname namesz ttl ts flags =
    if allocated
    then some (record {
      qname = qname;
      cs = sz.cent + namesz;
      num_rrs = 0;
      flags = flags;
      body = if negative then neg none ttl ts else empty_body;
      c_ns = none;
      c_soa = none;
    })
    else none

-- What a step leaves: its return value, the entry, and the list entries it has removed.
pub record Outcome : Type 0 where
  pub ret : ℕ
  pub cent : Cent
  pub unlinked : List ℕ

-- `cent->flags &= ~DF_NEGATIVE` and the empty arrays
abbrev pub make_positive : Body → List ℕ × Body
make_positive (neg lent ttl ts) = (unlink lent, empty_body)
make_positive (rr mu ext) = ([], rr mu ext)

-- The arrays once that of the less frequent types is there, and the bytes it has taken; `none` where
-- it could not be allocated.
abbrev pub with_rrext : Sizes → (allocated : Bool) → Body → Option (ℕ × Body)
with_rrext sz allocated (neg lent ttl ts) = some (0, neg lent ttl ts)
with_rrext sz allocated (rr mu (some ext)) = some (0, rr mu (some ext))
with_rrext sz allocated (rr mu none) =
    if allocated then some (sz.pointer * nrrext, rr mu (some (replicate nrrext none))) else none

-- The allocation of `add_cent_rrset_by_index`: only for an index behind the first array.
abbrev pub ensure : Sizes → (allocated : Bool) → ℕ → Body → Option (ℕ × Body)
ensure sz allocated idx b = if ltb idx nrrmu then some (0, b) else with_rrext sz allocated b

unfoldable pub add_cent_rrset_by_index :
    Sizes → (allocated_ext allocated_set : Bool) → Cent → (idx ttl ts : ℕ) → SetFlags → Outcome
add_cent_rrset_by_index sz allocated_ext allocated_set c idx ttl ts flags =
    let p = make_positive c.body in
    let new : RrSet = record { lent = none; ttl = ttl; ts = ts; flags = flags; rrs = [] } in
    elim (ensure sz allocated_ext idx p.1) [
      | none ↦ record { ret = 0; cent = with_body c c.cs c.num_rrs c.flags p.1; unlinked = p.0 }
      | some (grown, b) ↦
          if allocated_set
          then record {
            ret = 1;
            cent =
                with_body c (c.cs + grown + sz.rr_set) (c.num_rrs + 1) c.flags
                  (put_body b idx (some new));
            unlinked = p.0;
          }
          else record {
            ret = 0;
            cent = with_body c (c.cs + grown) c.num_rrs c.flags (put_body b idx none);
            unlinked = p.0;
          }
    ]

-- rr_types.h
abbrev pub t_min : ℕ
t_min = 1

abbrev pub t_num : ℕ
t_num = 51

-- `rrlkuptab` is the table of rr_types.h; `none` is a failed assertion.
unfoldable pub add_cent_rrset_by_type :
    Sizes
    → (rrlkuptab : ℕ → ℕ) → (allocated_ext allocated_set : Bool) → Cent
    → (type ttl ts : ℕ) → SetFlags
    → Option Outcome
unfolding add_cent_rrset_by_index
add_cent_rrset_by_type sz rrlkuptab allocated_ext allocated_set c type ttl ts flags =
    if leb t_min type && ltb (type - t_min) t_num
    then some (
        add_cent_rrset_by_index sz allocated_ext allocated_set c (rrlkuptab (type - t_min)) ttl ts
          flags)
    else none

-- `del_rrset`: the bytes it frees.
abbrev pub rrs_size : Sizes → List Bytes → ℕ
rrs_size sz [] = 0
rrs_size sz (r ∷ rrs) = sz.rr_bucket + length r + rrs_size sz rrs

unfoldable pub del_rrset : Sizes → RrSet → ℕ × List ℕ
del_rrset sz s = (sz.rr_set + rrs_size sz s.rrs, unlink s.lent)

unfoldable pub del_cent_rrset_by_index : Sizes → Cent → ℕ → Outcome
unfolding del_rrset
del_cent_rrset_by_index sz c i = elim (slot c i) [
  | none ↦ record { ret = 0; cent = c; unlinked = [] }
  | some s ↦
      let r = del_rrset sz s in
      record {
        ret = r.0;
        cent = with_body c (c.cs - r.0) (c.num_rrs - 1) (no_auth c.flags) (put_body c.body i none);
        unlinked = r.1;
      }
]
