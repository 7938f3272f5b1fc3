-- ===== src/Names.antt =====
-- Domain names in the transport format: each label behind its length byte, and a zero byte at the
-- end (helpers.h and helpers.c). A pointer is the list of the bytes from it to the end of its
-- buffer; a read behind that end is a fault, `none`. The loops take fuel, the length of the
-- buffer: each round moves the pointer on, so a loop that uses it up has left the buffer.
pub mod Wire
pub mod Walk
pub mod Normal
pub mod Compare
pub mod Text
pub mod Same
pub mod Equivalence
pub mod Tests
use tor_android_service_arch.Prelude.{
  ℕ, zero, suc, ◌+◌, ◌-◌, Bool, true, false, ltb, leb, ◌==◌, if◌then◌else◌, List, [], ◌∷◌, Option,
  none, some, length, drop, take,
}

abbrev pub Bytes : Type 0
Bytes = List ℕ

abbrev pub dnsnamebufsize : ℕ
dnsnamebufsize = 256

unfoldable pub rhnlen_from : ℕ → ℕ → Bytes → Option ℕ
rhnlen_from zero i rhn = none
rhnlen_from (suc fuel) i [] = none
rhnlen_from (suc fuel) i (lb ∷ rhn) =
    let rest = rhnlen_from fuel (i + 1 + lb) (drop lb rhn) in if lb == 0 then some (i + 1) else rest

unfoldable pub rhnlen : Bytes → Option ℕ
unfolding rhnlen_from
rhnlen rhn = rhnlen_from (length rhn) 0 rhn

rhnsegcnt_from : ℕ → ℕ → Bytes → Option ℕ
rhnsegcnt_from zero res rhn = none
rhnsegcnt_from (suc fuel) res [] = none
rhnsegcnt_from (suc fuel) res (lb ∷ rhn) =
    let rest = rhnsegcnt_from fuel (res + 1) (drop lb rhn) in if lb == 0 then some res else rest

unfoldable pub rhnsegcnt : Bytes → Option ℕ
unfolding rhnsegcnt_from
rhnsegcnt rhn = rhnsegcnt_from (length rhn) 0 rhn

skiprhn_from : ℕ → Bytes → Option Bytes
skiprhn_from zero rhn = none
skiprhn_from (suc fuel) [] = none
skiprhn_from (suc fuel) (lb ∷ rhn) =
    let rest = skiprhn_from fuel (drop lb rhn) in if lb == 0 then some rhn else rest

-- The pointer right behind the name.
unfoldable pub skiprhn : Bytes → Option Bytes
unfolding skiprhn_from
skiprhn rhn = skiprhn_from (length rhn) rhn

unfoldable pub skipsegs : Bytes → ℕ → Option Bytes
skipsegs nm zero = some nm
skipsegs [] (suc k) = none
skipsegs (lb ∷ nm) (suc k) =
    let rest = skipsegs (drop lb nm) k in if lb == 0 then some (lb ∷ nm) else rest

-- `PDNSD_ASSERT` ends the program where its condition fails: `none` too. The result is the bytes
-- that are copied to `dst`, and their number.
unfoldable pub rhncpy : Bytes → Option (Bytes × ℕ)
rhncpy src = elim (rhnlen src) [
  | none ↦ none
  | some len ↦ if leb len dnsnamebufsize then some (take len src, len) else none
]

isnormal_from : ℕ → ℕ → ℕ → Bytes → Option Bool
isnormal_from zero maxlen i rhn = none
isnormal_from (suc fuel) maxlen i [] = if leb maxlen i then some false else none
isnormal_from (suc fuel) maxlen i (lb ∷ rhn) =
    let rest = isnormal_from fuel maxlen (i + 1 + lb) (drop lb rhn) in
    if leb maxlen i
    then some false
    else if lb == 0
    then some true
    else if ltb 0x3f lb
    then some false
    else rest

unfoldable pub isnormalencdomname : Bytes → ℕ → Option Bool
unfolding isnormal_from
isnormalencdomname rhn maxlen =
    isnormal_from (suc (length rhn)) (if ltb dnsnamebufsize maxlen then dnsnamebufsize else maxlen)
      0 rhn

-- What the `do … while(--lb)` of `rhnicmp` comes to: a read out of a buffer, a difference, or the
-- two pointers behind the label.
pub data LabelCompare : Type 0 where
  fault : LabelCompare
  differs : LabelCompare
  same : Bytes → Bytes → LabelCompare

-- `tolower` of the C library.
module _ (tolower : ℕ → ℕ) where
  unfoldable pub rhnicmp_label : ℕ → Bytes → Bytes → LabelCompare
  rhnicmp_label zero a b = same a b
  rhnicmp_label (suc lb) [] b = fault
  rhnicmp_label (suc lb) (x ∷ a) [] = fault
  rhnicmp_label (suc lb) (x ∷ a) (y ∷ b) =
      let rest = rhnicmp_label lb a b in if tolower x == tolower y then rest else differs

  unfoldable pub rhnicmp_from : ℕ → Bytes → Bytes → Option Bool
  unfolding rhnicmp_label
  rhnicmp_from zero a b = none
  rhnicmp_from (suc fuel) [] b = none
  rhnicmp_from (suc fuel) (lb ∷ a) [] = none
  rhnicmp_from (suc fuel) (lb ∷ a) (lb' ∷ b) =
      if lb == lb'
      then (if lb == 0 then some true else elim (rhnicmp_label lb a b) [
        | fault ↦ none
        | differs ↦ some false
        | same a' b' ↦ rhnicmp_from fuel a' b'
      ])
      else some false

  unfoldable pub rhnicmp : Bytes → Bytes → Option Bool
  unfolding rhnicmp_from
  rhnicmp a b = rhnicmp_from (length a) a b
