-- ===== src/Message/Fits.antt =====
-- Names that fit into a buffer, and the matching of two of them.
use tor_android_service_arch.Message.Match.{collect, match_from, same_back, domain_match}
use tor_android_service_arch.Names.Wire.{Label, encode, IsName, encode_split}
use tor_android_service_arch.Names.{Bytes, dnsnamebufsize}
use tor_android_service_arch.Prelude.{
  ℕ, zero, suc, ◌+◌, ◌-◌, ◌*◌, ◌≤◌, ◌≡◌, refl, arith, true, false, Bool-cases, inl, inr, ◌&&◌, ltb,
  ◌==◌, List, [], ◌∷◌, ◌++◌, append-nil, some, length, length-append,
}

-- A name that fits into a buffer.
pub record Fits (nm : Bytes) (ls : List Label) : Type 0 where
  pub is_name : IsName ls
  pub encoded : nm ≡ encode ls
  pub short : length (encode ls) ≤ dnsnamebufsize

labels_few : (ls : List Label) → IsName ls → 2 * length ls + 1 ≤ length (encode ls)
labels_few [] n = omega arith
labels_few (l ∷ ls) n = omega (arith, n.0, labels_few ls n.2, length-append l (encode ls))

collect-encode :
    (fuel i : ℕ) (ls : List Label) (rest : Bytes) (acc : List ℕ)
    → IsName ls
    → length (encode ls) ≤ fuel
    → length acc + length ls ≤ 128
    → (r : List ℕ × ℕ) × (collect fuel (encode ls ++ rest) i acc ≡ some r)
      × (length r.0 ≡ length acc + length ls)
unfolding collect
collect-encode zero i [] rest acc n h f = absurd (omega (arith, h))
collect-encode zero i (l ∷ ls) rest acc n h f = absurd (omega (arith, h))
collect-encode (suc fuel) i [] rest acc n h f = ((acc, i), refl, omega arith)
collect-encode (suc fuel) i (l ∷ ls) rest acc n h f =
    let parts = length-append l (encode ls) in
    let (r, e, k) =
      collect-encode fuel (i + 1 + length l) ls rest (length l ∷ acc) n.2 (omega (arith, h, parts))
        (omega (arith, f)) in
    let more : (length l == 0) ≡ false = ground (arith, n.0) in
    let room : ltb (length acc) 128 ≡ true = ground (arith, f) in
    (r, rw (encode_split, more, room) e, omega (arith, k))

match_from_le :
    (tolower : ℕ → ℕ) (ls ld : List ℕ) (ms md : Bytes) (i j k : ℕ)
    → (match_from tolower ls ld ms md i j k).0 ≤ k + length ld
unfolding match_from
match_from_le tolower [] ld ms md i j k = omega arith
match_from_le tolower (l ∷ ls) [] ms md i j k = omega arith
match_from_le tolower (l ∷ ls) (d ∷ ld) ms md i j k =
    let rest = match_from_le tolower ls ld ms md (i - l - 1) (j - l - 1) (k + 1) in
    elim (Bool-cases (l == d && same_back tolower l ms md i j)) [
      | inl z ↦ rw z (omega (arith, rest))
      | inr z ↦ rw z (omega arith)
    ]

collect-Fits :
    (nm : Bytes) (ls : List Label)
    → Fits nm ls
    → (r : List ℕ × ℕ) × (collect (length nm) nm 0 [] ≡ some r) × (length r.0 ≡ length ls)
collect-Fits nm ls f =
    let (r, e, k) =
      collect-encode (length (encode ls)) 0 ls [] [] f.is_name (omega arith)
        (omega (arith, labels_few ls f.is_name, f.short)) in
    (r, rw f.encoded (rw append-nil at e), omega (arith, k))

pub domain_match-Fits :
    (tolower : ℕ → ℕ) (ms md : Bytes) (ls ds : List Label)
    → Fits ms ls
    → Fits md ds
    → (r : ℕ × ℕ × ℕ) × (domain_match tolower ms md ≡ some r) × (r.0 ≤ length ds)
unfolding domain_match
domain_match-Fits tolower ms md ls ds f g =
    let ((l, i), e, k) = collect-Fits ms ls f in
    let ((d, j), e', k') = collect-Fits md ds g in
    let found : domain_match tolower ms md ≡ some (match_from tolower l d ms md i j 0) =
      rw (domain_match, e, e') refl in
    (
      match_from tolower l d ms md i j 0,
      found,
      omega (arith, match_from_le tolower l d ms md i j 0, k'),
    )
