-- ===== src/Names/Equivalence.antt =====
-- The comparison of names by their bytes, which stands for `rhnicmp` in the cache.
use tor_android_service_arch.Names.Compare.{
  same_label, same_name, same_label_iff, same_label-length, rhnicmp-encode,
}
use tor_android_service_arch.Names.Same.{IsEquivalence}
use tor_android_service_arch.Names.Wire.{Label, encode, IsName}
use tor_android_service_arch.Names.{Bytes, rhnicmp}
use tor_android_service_arch.Prelude.{
  ℕ, ◌≤◌, ◌≡◌, refl, sym, ap, ◌∙◌, arith, ◌&&◌, ◌==◌, List, [], ◌∷◌, ◌++◌, some, length, Bool-cases,
  inl, inr, ==_iff,
}

module _ (tolower : ℕ → ℕ) where
  -- Bytes that are the same up to case form an equivalence relation.
  pub same_label-IsEquivalence : IsEquivalence (same_label tolower)
  same_label-IsEquivalence = record {
    same_refl = λ a. (same_label_iff tolower a a).1 refl;
    same_symm = symm;
    same_trans = λ a b c e f.
        (same_label_iff tolower a c).1
          ((same_label_iff tolower a b).0 e ∙ (same_label_iff tolower b c).0 f);
  }
    where
      symm : (a b : Bytes) → same_label tolower a b ≡ same_label tolower b a
      symm [] [] = refl
      symm [] (y ∷ b) = refl
      symm (x ∷ a) [] = refl
      symm (x ∷ a) (y ∷ b) = ground (arith, symm a b)

  same_label-append :
      (a b r s : Bytes)
      → length a ≡ length b
      → same_label tolower (a ++ r) (b ++ s) ≡ same_label tolower a b && same_label tolower r s
  same_label-append [] [] r s e = refl
  same_label-append [] (y ∷ b) r s e = absurd (omega (arith, e))
  same_label-append (x ∷ a) [] r s e = absurd (omega (arith, e))
  same_label-append (x ∷ a) (y ∷ b) r s e =
      ground (arith, same_label-append a b r s (omega (arith, e)))

  -- The bytes of a length stay themselves.
  abbrev pub FixesLengths : Type 0
  FixesLengths = (n : ℕ) → n ≤ 0x3f → tolower n ≡ n

  pub same_label-encode :
      (ls ms : List Label)
      → FixesLengths
      → IsName ls
      → IsName ms
      → same_label tolower (encode ls) (encode ms) ≡ same_name tolower ls ms
  same_label-encode [] [] f n m = ground arith
  same_label-encode [] (k ∷ ms) f n m = ground (arith, f 0 (omega arith), f (length k) m.1, m.0)
  same_label-encode (l ∷ ls) [] f n m = ground (arith, f 0 (omega arith), f (length l) n.1, n.0)
  same_label-encode (l ∷ ls) (k ∷ ms) f n m = elim (Bool-cases (length l == length k)) [
    | inl e ↦
        let h = (==_iff _ _).0 e in
        ground (
          arith,
          h,
          same_label-append l k (encode ls) (encode ms) h,
          same_label-encode ls ms f n.2 m.2,
        )
    | inr e ↦ ground (arith, same_label-length tolower l k, f (length l) n.1, f (length k) m.1)
  ]

  -- On two names `rhnicmp` compares the bytes up to case, if the bytes of a length are in no
  -- alphabet's upper case.
  pub rhnicmp-same_label :
      (ls ms : List Label) (r s : Bytes)
      → FixesLengths
      → IsName ls
      → IsName ms
      → rhnicmp tolower (encode ls ++ r) (encode ms ++ s)
        ≡ some (same_label tolower (encode ls) (encode ms))
  rhnicmp-same_label ls ms r s f n m =
      (rhnicmp-encode tolower ls ms r s n m).0 ∙ ap some (sym (same_label-encode ls ms f n m))
