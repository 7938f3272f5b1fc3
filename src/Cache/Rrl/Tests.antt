-- ===== src/Cache/Rrl/Tests.antt =====
-- The theorems at short lists; an entry is its time stamp and a mark.
use tor_android_service_arch.Prelude.{
  ℕ, ◌≡◌, refl, true, false, arith, if◌then◌else◌, List, [], ◌∷◌, ◌++◌, some,
}
use tor_android_service_arch.Cache.Rrl.{insert_rrl, sort_rrl}
use tor_android_service_arch.Cache.Rrl.Insert.{IsSorted, stamped, insert_rrl-IsSorted}
use tor_android_service_arch.Cache.Rrl.Sort.{sort_rrl-IsSorted}

abbrev Entry : Type 0
Entry = ℕ × ℕ

abbrev stamp : Entry → ℕ
stamp e = e.0

abbrev old_entries : List Entry
old_entries = (10, 1) ∷ (20, 2) ∷ (20, 3) ∷ (30, 4) ∷ []

insert_rrl-IsSorted_example :
    (l' : List Entry) × (insert_rrl stamp false true true (20, 5) old_entries ≡ some l')
    × IsSorted stamp l'
    × ((k : ℕ)
        → stamped stamp k l' ≡ (
            if false
            then stamped stamp k old_entries
            else stamped stamp k old_entries ++ stamped stamp k ((20, 5) ∷ [])))
insert_rrl-IsSorted_example = insert_rrl-IsSorted stamp false (20, 5) old_entries (omega arith)

insert_rrl_runs :
    insert_rrl stamp false true true (20, 5) old_entries
    ≡ some ((10, 1) ∷ (20, 2) ∷ (20, 3) ∷ (20, 5) ∷ (30, 4) ∷ [])
unfolding insert_rrl
insert_rrl_runs = refl

abbrev unsorted : List Entry
unsorted = (30, 1) ∷ (10, 2) ∷ (30, 3) ∷ (20, 4) ∷ (10, 5) ∷ []

sort_rrl-IsSorted_example :
    (l : List Entry) × (sort_rrl stamp unsorted ≡ some l)
    × IsSorted stamp l
    × ((k : ℕ) → stamped stamp k l ≡ stamped stamp k unsorted)
sort_rrl-IsSorted_example = sort_rrl-IsSorted stamp unsorted (omega arith)

sort_rrl_runs :
    sort_rrl stamp unsorted ≡ some ((10, 2) ∷ (10, 5) ∷ (20, 4) ∷ (30, 1) ∷ (30, 3) ∷ [])
unfolding sort_rrl
sort_rrl_runs = refl
