-- ===== src/Cache/Rrl.antt =====
-- The list `rrset_l` that purging walks from the oldest record set to the newest (cache.c,
-- `insert_rrl`, `listmerge`, `sort_rrl`), as a sequence from `rrset_l` to `rrset_l_tail`. The
-- time stamp of an entry is read through its record set or its cache entry (`get_rrlent_ts`), so
-- it is a function `ts` of the entry here.
pub mod Insert
pub mod Sort
mod Tests
use tor_android_service_arch.Prelude.{
  ℕ, zero, suc, Bool, true, false, ◌||◌, leb, if◌then◌else◌, List, [], ◌∷◌, ◌++◌, Option, none,
  some,
}

module _ {L : Type 0} (ts : L → ℕ) where
  -- One round of the search, once the entries behind `le` have been looked at.
  abbrev pub insert_before : L → L → List L → Option (List L) → Option (List L)
  insert_before ne le rest (some r) = some (le ∷ r)
  insert_before ne le rest none = if leb (ts le) (ts ne) then some (le ∷ ne ∷ rest) else none

  -- `while (le) { if (ts >= get_rrlent_ts(le)) goto found; le = le->prev; }` and what follows
  -- `found`; `none` is the fall through.
  insert_found : L → List L → Option (List L)
  insert_found ne [] = none
  insert_found ne (le ∷ rest) = insert_before ne le rest (insert_found ne rest)

  -- "not found, so it needs to be inserted at the start of the list"
  abbrev pub get_or_front : L → List L → Option (List L) → List L
  get_or_front ne l (some r) = r
  get_or_front ne l none = ne ∷ l

  insert_sorted : L → List L → List L
  unfolding insert_found
  insert_sorted ne l = get_or_front ne l (insert_found ne l)

  -- `insert_rrl`: `local` is `rrs->flags & CF_LOCAL` or `cent->flags & DF_LOCAL`, `allocated`
  -- the outcome of `malloc`, `insert_sort` the static variable. `none` is the return value 0.
  unfoldable pub insert_rrl : (local allocated insert_sort : Bool) → L → List L → Option (List L)
  unfolding insert_sorted
  insert_rrl local allocated insert_sort ne l =
      if local
      then some l
      else if allocated
      then some (if insert_sort then insert_sorted ne l else l ++ ne ∷ [])
      else none

  unfoldable pub listmerge : List L → List L → List L
  listmerge [] q = q
  listmerge (p ∷ ps) [] = p ∷ ps
  listmerge (p ∷ ps) (q ∷ qs) = elim (leb (ts p) (ts q)) [
    | true ↦ p ∷ listmerge ps (q ∷ qs)
    | false ↦ q ∷ listmerge (p ∷ ps) qs
  ]

abbrev pub ntmpsort : ℕ
ntmpsort = 32

module _ {L : Type 0} (ts : L → ℕ) where
  -- The inner `for` of `sort_rrl` and the writes behind it, on `tmp` from `tmp[0]` up to `fill`.
  -- `left` counts the places of the array from `counter` to `end`; with none left the assertion
  -- fails.
  unfoldable pub carry_up : (left : ℕ) → List (List L) → List L → Option (List (List L))
  carry_up zero tmp carry = none
  carry_up (suc left) [] carry = some (carry ∷ [])
  carry_up (suc left) ([] ∷ tmp) carry = some (carry ∷ tmp)
  carry_up (suc left) ((c ∷ cs) ∷ tmp) carry =
      elim (carry_up left tmp (listmerge ts (c ∷ cs) carry)) [
        | none ↦ none
        | some t ↦ some ([] ∷ t)
      ]

  -- `do { carry = rem; … } while (rem)`
  unfoldable pub fill_tmp : List L → List (List L) → Option (List (List L))
  unfolding carry_up listmerge
  fill_tmp [] tmp = some tmp
  fill_tmp (x ∷ rem) tmp = elim (carry_up ntmpsort tmp (x ∷ [])) [
    | none ↦ none
    | some t ↦ fill_tmp rem t
  ]

  -- `while (++counter != fill) carry = listmerge(*counter, carry)`
  unfoldable pub merge_tmp : List L → List (List L) → List L
  unfolding listmerge
  merge_tmp carry [] = carry
  merge_tmp carry (t ∷ tmp) = merge_tmp (listmerge ts t carry) tmp

  -- The head of a `tmp` that holds at least one list, and the lists behind it.
  merge_filled : List (List L) → List L
  merge_filled [] = []
  merge_filled (t ∷ tmp) = merge_tmp t tmp

  -- `none` is a failed assertion.
  unfoldable pub sort_rrl : List L → Option (List L)
  unfolding fill_tmp merge_tmp merge_filled
  sort_rrl [] = some []
  sort_rrl (x ∷ []) = some (x ∷ [])
  sort_rrl (x ∷ y ∷ rem) = elim (fill_tmp (x ∷ y ∷ rem) []) [
    | none ↦ none
    | some tmp ↦ some (merge_filled tmp)
  ]
