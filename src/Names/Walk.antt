-- ===== src/Names/Walk.antt =====
-- The functions that walk over a name, on the encoding of any labels with any bytes behind it.
use tor_android_service_arch.Prelude.{
  ℕ, zero, suc, ◌+◌, ◌≤◌, ◌<◌, ◌≡◌, ◌≢◌, ◌↔◌, ◌⊎◌, inl, inr, min, refl, true, arith, ltb,
  if◌then◌else◌, List, [], ◌∷◌, ◌++◌, some, append_assoc, length, length-append, drop, take,
}
use native.Mathlib.Decide.{dec_le}
use tor_android_service_arch.Names.{
  Bytes, dnsnamebufsize, rhnlen_from, rhnlen, rhnsegcnt_from, rhnsegcnt, skiprhn_from, skiprhn,
  skipsegs, rhncpy, isnormal_from, isnormalencdomname,
}
use tor_android_service_arch.Names.Wire.{Label, encode, IsName, encode_split, take-append}

length-encode_rest : (ls : List Label) (rest : Bytes) → 1 ≤ length (encode ls ++ rest)
length-encode_rest [] rest = omega arith
length-encode_rest (l ∷ ls) rest = omega arith

rhnlen_from-encode :
    (fuel i : ℕ) (ls : List Label) (rest : Bytes)
    → IsName ls
    → length (encode ls) ≤ fuel
    → rhnlen_from fuel i (encode ls ++ rest) ≡ some (i + length (encode ls))
unfolding rhnlen_from
rhnlen_from-encode zero i [] rest n h = absurd (omega arith)
rhnlen_from-encode zero i (l ∷ ls) rest n h = absurd (omega arith)
rhnlen_from-encode (suc fuel) i [] rest n h = refl
rhnlen_from-encode (suc fuel) i (l ∷ ls) rest n h =
    let parts = length-append l (encode ls) in
    rw encode_split
      (ground (arith, rhnlen_from-encode fuel (i + 1 + length l) ls rest n.2 (omega arith)))

rhnsegcnt_from-encode :
    (fuel res : ℕ) (ls : List Label) (rest : Bytes)
    → IsName ls
    → length (encode ls) ≤ fuel
    → rhnsegcnt_from fuel res (encode ls ++ rest) ≡ some (res + length ls)
unfolding rhnsegcnt_from
rhnsegcnt_from-encode zero res [] rest n h = absurd (omega arith)
rhnsegcnt_from-encode zero res (l ∷ ls) rest n h = absurd (omega arith)
rhnsegcnt_from-encode (suc fuel) res [] rest n h = ground arith
rhnsegcnt_from-encode (suc fuel) res (l ∷ ls) rest n h =
    let parts = length-append l (encode ls) in
    rw encode_split (ground (arith, rhnsegcnt_from-encode fuel (res + 1) ls rest n.2 (omega arith)))

skiprhn_from-encode :
    (fuel : ℕ) (ls : List Label) (rest : Bytes)
    → IsName ls
    → length (encode ls) ≤ fuel
    → skiprhn_from fuel (encode ls ++ rest) ≡ some rest
unfolding skiprhn_from
skiprhn_from-encode zero [] rest n h = absurd (omega arith)
skiprhn_from-encode zero (l ∷ ls) rest n h = absurd (omega arith)
skiprhn_from-encode (suc fuel) [] rest n h = refl
skiprhn_from-encode (suc fuel) (l ∷ ls) rest n h =
    let parts = length-append l (encode ls) in
    rw encode_split (ground (arith, skiprhn_from-encode fuel ls rest n.2 (omega arith)))

-- The helpers find the end of a name, count its labels and copy it whole, whatever lies behind it;
-- copying needs a name that fits into `DNSNAMEBUFSIZE` bytes.
pub walk-encode :
    (ls : List Label) (rest : Bytes)
    → IsName ls
    → (rhnlen (encode ls ++ rest) ≡ some (length (encode ls)))
      × (rhnsegcnt (encode ls ++ rest) ≡ some (length ls))
      × (skiprhn (encode ls ++ rest) ≡ some rest)
      × (length (encode ls) ≤ dnsnamebufsize
          → rhncpy (encode ls ++ rest) ≡ some (encode ls, length (encode ls)))
unfolding rhnlen rhnsegcnt skiprhn rhncpy
walk-encode ls rest n =
    let whole = length-append (encode ls) rest in
    let found = rhnlen_from-encode (length (encode ls ++ rest)) 0 ls rest n (omega arith) in
    (
      rw found (ground arith),
      rw (rhnsegcnt_from-encode (length (encode ls ++ rest)) 0 ls rest n (omega arith))
          (ground arith),
      skiprhn_from-encode (length (encode ls ++ rest)) ls rest n (omega arith),
      λ fits. ground (arith, found, take-append (encode ls) rest),
    )

-- `skipsegs` drops the first labels, and stops at the root.
pub skipsegs-encode :
    (ls : List Label) (k : ℕ) (rest : Bytes)
    → IsName ls
    → skipsegs (encode ls ++ rest) k ≡ some (encode (drop k ls) ++ rest)
unfolding skipsegs
skipsegs-encode ls zero rest n = refl
skipsegs-encode [] (suc k) rest n = refl
skipsegs-encode (l ∷ ls) (suc k) rest n =
    rw encode_split (ground (arith, skipsegs-encode ls k rest n.2))

isnormal_from-encode :
    (fuel maxlen i : ℕ) (ls : List Label) (rest : Bytes)
    → IsName ls
    → length (encode ls) ≤ fuel
    → i + length (encode ls) ≤ maxlen
    → isnormal_from fuel maxlen i (encode ls ++ rest) ≡ some true
unfolding isnormal_from
isnormal_from-encode zero maxlen i [] rest n h m = absurd (omega arith)
isnormal_from-encode zero maxlen i (l ∷ ls) rest n h m = absurd (omega arith)
isnormal_from-encode (suc fuel) maxlen i [] rest n h m = ground arith
isnormal_from-encode (suc fuel) maxlen i (l ∷ ls) rest n h m =
    let parts = length-append l (encode ls) in
    rw encode_split (
      ground (
        arith,
        isnormal_from-encode fuel maxlen (i + 1 + length l) ls rest n.2 (omega arith) (omega arith),
      ))

-- The bytes hold a name within `maxlen` bytes.
pub record HasName (maxlen i : ℕ) (rhn : Bytes) : Type 0 where
  pub labels : List Label
  pub rest : Bytes
  pub splits : rhn ≡ encode labels ++ rest
  pub is_name : IsName labels
  pub fits : i + length (encode labels) ≤ maxlen

take-drop : (n : ℕ) (xs : Bytes) → take n xs ++ drop n xs ≡ xs
take-drop zero xs = refl
take-drop (suc n) [] = refl
take-drop (suc n) (x ∷ xs) = rw (take-drop n xs)

length-take_le : (n : ℕ) (xs : Bytes) → n ≤ length xs → length (take n xs) ≡ n
length-take_le zero xs h = refl
length-take_le (suc n) [] h = absurd (omega arith)
length-take_le (suc n) (x ∷ xs) h = omega (arith, length-take_le n xs (omega arith))

drop_past : (n : ℕ) (xs : Bytes) → length xs < n → drop n xs ≡ []
drop_past zero xs h = absurd (omega arith)
drop_past (suc n) [] h = refl
drop_past (suc n) (x ∷ xs) h = drop_past n xs (omega arith)

HasName-cons :
    (maxlen i lb : ℕ) (rhn : Bytes)
    → 1 ≤ lb
    → lb ≤ 0x3f
    → lb ≤ length rhn
    → HasName maxlen (i + 1 + lb) (drop lb rhn)
    → HasName maxlen i (lb ∷ rhn)
HasName-cons maxlen i lb rhn pos short inside h =
    let e = length-take_le lb rhn inside in
    let parts = length-append (take lb rhn) (encode h.labels) in
    record {
      labels = take lb rhn ∷ h.labels;
      rest = h.rest;
      splits = rw (e, append_assoc, ← h.splits, take-drop lb rhn);
      is_name = (omega arith, omega arith, h.is_name);
      fits = omega (arith, h.fits);
    }

isnormal_from_past : (fuel maxlen i : ℕ) → isnormal_from fuel maxlen i [] ≢ some true
unfolding isnormal_from
isnormal_from_past zero maxlen i = ground arith
isnormal_from_past (suc fuel) maxlen i = ground arith

-- What a round of `isnormalencdomname` that ends well has found.
isnormal_from-next :
    (fuel maxlen i lb : ℕ) (rhn : Bytes)
    → isnormal_from (suc fuel) maxlen i (lb ∷ rhn) ≡ some true
    → (i < maxlen)
      × ((lb ≡ 0)
          ⊎ (1 ≤ lb
              × lb ≤ 0x3f
              × (isnormal_from fuel maxlen (i + 1 + lb) (drop lb rhn) ≡ some true)))
unfolding isnormal_from
isnormal_from-next fuel maxlen i lb rhn e = ground arith

isnormal_from-HasName :
    (fuel maxlen i : ℕ) (rhn : Bytes)
    → isnormal_from fuel maxlen i rhn ≡ some true
    → HasName maxlen i rhn
isnormal_from-HasName zero maxlen i rhn e = unfold isnormal_from in cc
isnormal_from-HasName (suc fuel) maxlen i [] e = absurd (isnormal_from_past (suc fuel) maxlen i e)
isnormal_from-HasName (suc fuel) maxlen i (lb ∷ rhn) e =
    let (below, next) = isnormal_from-next fuel maxlen i lb rhn e in
    elim next [
      | inl z ↦ record { labels = []; rest = rhn; splits = rw z; is_name = tt; fits = omega arith }
      | inr (pos, short, later) ↦
          HasName-cons maxlen i lb rhn pos short
            (elim (dec_le lb (length rhn)) [
              | yes inside ↦ inside
              | no outside ↦ absurd (
                  isnormal_from_past fuel maxlen (i + 1 + lb)
                    (rw (drop_past lb rhn (omega arith)) at later))
            ])
            (isnormal_from-HasName fuel maxlen (i + 1 + lb) (drop lb rhn) later)
    ]

-- `isnormalencdomname` answers yes exactly for buffers that begin with a name of plain labels, its
-- end within `maxlen` and `DNSNAMEBUFSIZE` bytes.
pub isnormalencdomname_iff :
    (rhn : Bytes) (maxlen : ℕ)
    → (isnormalencdomname rhn maxlen ≡ some true) ↔ HasName (min dnsnamebufsize maxlen) 0 rhn
unfolding isnormalencdomname
isnormalencdomname_iff rhn maxlen =
    let bound : (if ltb dnsnamebufsize maxlen then dnsnamebufsize else maxlen)
        ≡ min dnsnamebufsize maxlen =
      ground arith in
    rw bound (
      (λ e. isnormal_from-HasName (suc (length rhn)) (min dnsnamebufsize maxlen) 0 rhn e),
      (λ h. rw h.splits (
          isnormal_from-encode (suc (length (encode h.labels ++ h.rest)))
            (min dnsnamebufsize maxlen) 0 h.labels h.rest h.is_name
            (omega (arith, length-append (encode h.labels) h.rest)) h.fits)),
    )
