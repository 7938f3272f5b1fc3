-- ===== src/Names/Normal.antt =====
-- `isnormalencdomname` reads no more than it is told to.
use tor_android_service_arch.Names.{Bytes, isnormal_from, isnormalencdomname}
use tor_android_service_arch.Prelude.{
  ℕ, zero, suc, ◌+◌, ◌-◌, ◌≤◌, ◌<◌, ◌≡◌, inl, inr, refl, arith, Bool, true, false, Bool-cases, ltb,
  leb, ◌==◌, [], ◌∷◌, some, length, drop,
}

pub length-drop : (n : ℕ) (bs : Bytes) → length (drop n bs) ≡ length bs - n
length-drop zero bs = omega arith
length-drop (suc n) [] = omega arith
length-drop (suc n) (b ∷ bs) = omega (arith, length-drop n bs)

-- `isnormalencdomname` with as many bytes there as it may read.
isnormal_from-some :
    (fuel maxlen i : ℕ) (rhn : Bytes)
    → length rhn < fuel
    → maxlen ≤ i + length rhn
    → (b : Bool) × (isnormal_from fuel maxlen i rhn ≡ some b)
unfolding isnormal_from
isnormal_from-some zero maxlen i rhn f h = absurd (omega (arith, f))
isnormal_from-some (suc fuel) maxlen i [] f h = (false, ground arith)
isnormal_from-some (suc fuel) maxlen i (lb ∷ rhn) f h =
    let short = length-drop lb rhn in
    let (b, e) =
      isnormal_from-some fuel maxlen (i + 1 + lb) (drop lb rhn) (omega (arith, f, short))
        (omega (arith, h, short)) in
    elim (Bool-cases (leb maxlen i)) [
      | inl z ↦ (false, rw z refl)
      | inr z ↦ elim (Bool-cases (lb == 0)) [
        | inl y ↦ (true, rw (z, y) refl)
        | inr y ↦ elim (Bool-cases (ltb 0x3f lb)) [
          | inl x ↦ (false, rw (z, y, x) refl)
          | inr x ↦ (b, rw (z, y, x) e)
        ]
      ]
    ]

pub isnormalencdomname-some :
    (rhn : Bytes) (maxlen : ℕ)
    → maxlen ≤ length rhn
    → (b : Bool) × (isnormalencdomname rhn maxlen ≡ some b)
unfolding isnormalencdomname
isnormalencdomname-some rhn maxlen h =
    isnormal_from-some (suc (length rhn)) _ 0 rhn (omega arith) (ground (arith, h))
