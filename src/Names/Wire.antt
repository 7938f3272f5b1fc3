-- ===== src/Names/Wire.antt =====
-- What the transport format stands for: a list of labels.
use tor_android_service_arch.Prelude.{
  ℕ, ◌≤◌, ◌≡◌, refl, List, [], ◌∷◌, ◌++◌, append_assoc, length, drop, take,
}
use tor_android_service_arch.Names.{Bytes}

abbrev pub Label : Type 0
Label = List ℕ

abbrev pub encode : List Label → Bytes
encode [] = 0 ∷ []
encode (l ∷ ls) = length l ∷ (l ++ encode ls)

-- The labels of a name are not empty, and short enough for a plain length byte.
abbrev pub IsName : List Label → Type 0
IsName [] = Unit
IsName (l ∷ ls) = (1 ≤ length l) × (length l ≤ 0x3f) × IsName ls

pub drop-append {ℓ} : {A : Type ℓ} (xs ys : List A) → drop (length xs) (xs ++ ys) ≡ ys
drop-append [] ys = refl
drop-append (x ∷ xs) ys = drop-append xs ys

pub take-append {ℓ} : {A : Type ℓ} (xs ys : List A) → take (length xs) (xs ++ ys) ≡ xs
take-append [] ys = refl
take-append (x ∷ xs) ys = rw (take-append xs ys)

pub encode_split :
    (l : Label) (ls : List Label) (rest : Bytes)
    → drop (length l) ((l ++ encode ls) ++ rest) ≡ encode ls ++ rest
encode_split l ls rest = rw append_assoc (drop-append l (encode ls ++ rest))
