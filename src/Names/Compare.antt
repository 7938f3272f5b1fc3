-- ===== src/Names/Compare.antt =====
-- `rhnicmp` compares names by their labels, up to case.
use tor_android_service_arch.Prelude.{
  ℕ, zero, suc, ◌≤◌, ◌≡◌, ◌↔◌, refl, Bool, true, false, ◌&&◌, arith, ◌==◌, if◌then◌else◌, List, [],
  ◌∷◌, ◌++◌, some, Bool-cases, inl, inr, ==_iff, append_assoc, length, length-append, map,
}
use tor_android_service_arch.Names.{Bytes, differs, same, rhnicmp_label, rhnicmp_from, rhnicmp}
use tor_android_service_arch.Names.Wire.{Label, encode, IsName}

module _ (tolower : ℕ → ℕ) where
  -- Labels of one length, and equal up to case.
  abbrev pub same_label : Label → Label → Bool
  same_label [] [] = true
  same_label (x ∷ a) (y ∷ b) = tolower x == tolower y && same_label a b
  same_label _ _ = false

  abbrev pub same_name : List Label → List Label → Bool
  same_name [] [] = true
  same_name (l ∷ ls) (m ∷ ms) = same_label l m && same_name ls ms
  same_name _ _ = false

  rhnicmp_label-same_label :
      (a b : Label) (r s : Bytes)
      → length a ≡ length b
      → rhnicmp_label tolower (length a) (a ++ r) (b ++ s)
        ≡ (if same_label a b then same r s else differs)
  unfolding rhnicmp_label
  rhnicmp_label-same_label [] [] r s e = refl
  rhnicmp_label-same_label [] (y ∷ b) r s e = absurd (omega arith)
  rhnicmp_label-same_label (x ∷ a) [] r s e = absurd (omega arith)
  rhnicmp_label-same_label (x ∷ a) (y ∷ b) r s e =
      ground (arith, rhnicmp_label-same_label a b r s (omega arith))

  pub same_label-length : (a b : Label) → same_label a b ≡ true → length a ≡ length b
  same_label-length [] [] e = refl
  same_label-length [] (y ∷ b) e = absurd (cc)
  same_label-length (x ∷ a) [] e = absurd (cc)
  same_label-length (x ∷ a) (y ∷ b) e = ground (arith, same_label-length a b)

  rhnicmp_from-same_name :
      (fuel : ℕ) (ls ms : List Label) (r s : Bytes)
      → IsName ls
      → IsName ms
      → length (encode ls) ≤ fuel
      → rhnicmp_from tolower fuel (encode ls ++ r) (encode ms ++ s) ≡ some (same_name ls ms)
  unfolding rhnicmp_from
  rhnicmp_from-same_name zero [] ms r s n m h = absurd (omega arith)
  rhnicmp_from-same_name zero (l ∷ ls) ms r s n m h = absurd (omega arith)
  rhnicmp_from-same_name (suc fuel) [] [] r s n m h = refl
  rhnicmp_from-same_name (suc fuel) [] (k ∷ ms) r s n m h = ground arith
  rhnicmp_from-same_name (suc fuel) (l ∷ ls) [] r s n m h = ground arith
  rhnicmp_from-same_name (suc fuel) (l ∷ ls) (k ∷ ms) r s n m h =
      let parts = length-append l (encode ls) in
      elim (Bool-cases (length l == length k)) [
        | inl e ↦
            rw (append_assoc, append_assoc)
              (ground (
                arith,
                rhnicmp_label-same_label l k (encode ls ++ r) (encode ms ++ s) ((==_iff _ _).0 e),
                rhnicmp_from-same_name fuel ls ms r s n.2 m.2 (omega arith),
              ))
        | inr e ↦ rw (append_assoc, append_assoc) (ground (arith, same_label-length l k))
      ]

  -- The letters as `tolower` gives them.
  abbrev pub lower_name : List Label → List Label
  lower_name = map (map tolower)

  pub same_label_iff : (a b : Label) → (same_label a b ≡ true) ↔ (map tolower a ≡ map tolower b)
  same_label_iff [] [] = (λ e. refl, λ e. refl)
  same_label_iff [] (y ∷ b) = (λ e. cc, λ e. cc)
  same_label_iff (x ∷ a) [] = (λ e. cc, λ e. cc)
  same_label_iff (x ∷ a) (y ∷ b) =
      (λ e. ground (arith, (same_label_iff a b).0), λ e. ground (arith, (same_label_iff a b).1))

  pub same_name_iff :
      (ls ms : List Label) → (same_name ls ms ≡ true) ↔ (lower_name ls ≡ lower_name ms)
  same_name_iff [] [] = (λ e. refl, λ e. refl)
  same_name_iff [] (y ∷ b) = (λ e. cc, λ e. cc)
  same_name_iff (x ∷ a) [] = (λ e. cc, λ e. cc)
  same_name_iff (x ∷ a) (y ∷ b) = (
    λ e. ground (arith, (same_name_iff a b).0, (same_label_iff x y).0),
    λ e. ground (arith, (same_name_iff a b).1, (same_label_iff x y).1),
  )

  -- On two names `rhnicmp` reads no byte behind them, and answers 1 exactly if their labels are the
  -- same up to case.
  pub rhnicmp-encode :
      (ls ms : List Label) (r s : Bytes)
      → IsName ls
      → IsName ms
      → (rhnicmp tolower (encode ls ++ r) (encode ms ++ s) ≡ some (same_name ls ms))
        × ((rhnicmp tolower (encode ls ++ r) (encode ms ++ s) ≡ some true)
            ↔ (lower_name ls ≡ lower_name ms))
  unfolding rhnicmp
  rhnicmp-encode ls ms r s n m =
      let run =
        rhnicmp_from-same_name (length (encode ls ++ r)) ls ms r s n m
          (omega (arith, length-append (encode ls) r)) in
      (run, rw run (λ e. (same_name_iff ls ms).0 (cc), λ e. rw ((same_name_iff ls ms).1 e)))
