-- ===== src/Cache/Store/Filled.antt =====
-- Filling an entry in `add_cache` keeps its books and its name.
use tor_android_service_arch.Cache.Cent.{
  Sizes, nrrmu, nrrext, RrSet, Cent, slot, rrarr_len, add_cent_rrset_by_index,
}
use tor_android_service_arch.Cache.Cent.Accounts.{Accounted, del_cent_rrset_by_index-Accounted}
use tor_android_service_arch.Cache.Cent.Add.{link-Accounted, add_cent_rrset_by_index-Accounted}
use tor_android_service_arch.Cache.Cent.Ttl.{Global, adjust_ttl, adjust_dom_ttl}
use tor_android_service_arch.Cache.Rrl.{insert_rrl}
use tor_android_service_arch.Cache.Store.{get_rrlent_ts, is_negative}
use tor_android_service_arch.Cache.Store.Adding.{
  Adding, Added, continue, stopped, then_do, first_outcome, later_outcomes, put_slot, stays,
  insert_set, insert_neg, list_slot, list_slots, list_new, clean_slot, add_record, add_records,
  list_added, fill_set, add_set, replace_set, replace_slot, replace_sets,
}
use tor_android_service_arch.Cache.Store.Kept.{
  put_slot_books, set_neg_lent_books, adjust_dom_ttl-Accounted, add_cent_rrset_by_index-qname,
  cr_check_add-Ready,
}
use tor_android_service_arch.Cache.Store.Entry.{del_cent_rrset_by_index-qname}
use tor_android_service_arch.Names.{Bytes}
use tor_android_service_arch.Prelude.{
  ℕ, zero, suc, ◌+◌, ◌<◌, ◌≤◌, ◌≡◌, refl, sym, ◌∙◌, arith, Bool, false, ◌||◌, ◌==◌, List, [], ◌∷◌,
  Option, none, some, Bool-cases, Option-cases, inl, inr,
}

module _ (sz : Sizes) (namesz : ℕ) (key : Bytes) where
  -- The entry keeps its books and its name.
  abbrev pub Good : Adding → Type 0
  Good st = Accounted sz namesz st.ce × (st.ce.qname ≡ key)

  abbrev pub GoodAdded : Added → Type 0
  GoodAdded (continue st) = Good st
  GoodAdded (stopped st) = Good st

  then_do-Good :
      (a : Added) (f : Adding → Added)
      → GoodAdded a
      → ((st : Adding) → Good st → GoodAdded (f st))
      → GoodAdded (then_do a f)
  then_do-Good (continue st) f a k = k st a
  then_do-Good (stopped st) f a k = a

  adjust_ttl-rrs : (g : Global) (s : RrSet) → (adjust_ttl g s).rrs ≡ s.rrs
  unfolding adjust_ttl
  adjust_ttl-rrs g s = ground arith

  module _ (same : Bytes → Bytes → Bool) (g : Global) (insert_sort : Bool) (cs : List Cent) where
    insert_set-Good :
        (i : ℕ) (s s' : RrSet) (st : Adding)
        → Good st
        → slot st.ce i ≡ some s
        → s'.rrs ≡ s.rrs
        → GoodAdded (insert_set same g insert_sort cs i s' st)
    insert_set-Good i s s' st (a, n) e r = elim (Bool-cases (s'.flags.local || st.ce.flags.local)) [
      | inl l ↦ rw l (a, n)
      | inr l ↦
          rw l
            (elim (Option-cases (
              insert_rrl (get_rrlent_ts same (st.ce ∷ cs)) false (first_outcome st.outcomes)
                insert_sort (record { id = st.fresh; cent = st.ce.qname; idx = some i }) st.rrl)) [
                  | inl z ↦ rw z (a, n)
                  | inr (l', z) ↦ rw z (
                    (put_slot_books sz namesz i st.ce s (record s' { lent = some st.fresh }) a e
                        r).0,
                    n,
                  )
                ])
    ]

    insert_neg-Good : (st : Adding) → Good st → GoodAdded (insert_neg same g insert_sort cs st)
    insert_neg-Good st (a, n) = elim (Bool-cases st.ce.flags.local) [
      | inl l ↦ simp l (a, n)
      | inr l ↦
          simp l
            (elim (Option-cases (
              insert_rrl (get_rrlent_ts same (st.ce ∷ cs)) false (first_outcome st.outcomes)
                insert_sort (record { id = st.fresh; cent = st.ce.qname; idx = none }) st.rrl)) [
                  | inl z ↦ rw z (a, n)
                  | inr (l', z) ↦
                      let (w, size, count) = set_neg_lent_books sz st.ce.body st.fresh a.shaped in
                      rw z (
                        record {
                          shaped = w;
                          size = omega (arith, a.size, size);
                          count = a.count ∙ sym count;
                        },
                        n,
                      )
                ])
    ]

    list_slot-Good :
        (i : ℕ) (o : Option RrSet) (st : Adding)
        → Good st
        → slot st.ce i ≡ o
        → GoodAdded (list_slot same g insert_sort cs i o st)
    list_slot-Good i none st k e = k
    list_slot-Good i (some s) st (a, n) e =
        let s' = adjust_ttl g s in
        let (a', e') = put_slot_books sz namesz i st.ce s s' a e (adjust_ttl-rrs g s) in
        insert_set-Good i s' s' (record st { ce = put_slot st.ce i s' }) (a', n) e' refl

    list_slots-Good :
        (left i : ℕ) (st : Adding)
        → Good st
        → GoodAdded (list_slots same g insert_sort cs left i st)
    unfolding list_slots
    list_slots-Good zero i st k = k
    list_slots-Good (suc left) i st k =
        then_do-Good (list_slot same g insert_sort cs i (slot st.ce i) st) _
          (list_slot-Good i (slot st.ce i) st k refl) (list_slots-Good left (i + 1))

    pub list_new-Good : (st : Adding) → Good st → GoodAdded (list_new same g insert_sort cs st)
    unfolding list_new
    list_new-Good st (a, n) = elim (Bool-cases (is_negative st.ce.body)) [
      | inl e ↦
          let (a', n') = adjust_dom_ttl-Accounted sz g namesz st.ce a in
          rw (list_new, e)
            (insert_neg-Good (record st { ce = adjust_dom_ttl g st.ce }) (a', n' ∙ n))
      | inr e ↦ rw (list_new, e) (list_slots-Good (rrarr_len st.ce.body) 0 st (a, n))
    ]

  clean_slot-Good :
      (now i : ℕ) (st : Adding)
      → Good st
      → Good (clean_slot sz i st) × (slot (clean_slot sz i st).ce i ≡ none)
  clean_slot-Good now i st (a, n) =
      let (a', _, e) = del_cent_rrset_by_index-Accounted sz namesz i st.ce a in
      ((a', del_cent_rrset_by_index-qname sz now st.ce i ∙ n), e)

  add_record-Good :
      (i : ℕ) (r : Bytes) (st : Adding) (o : Option RrSet) (os : List Bool)
      → Good st
      → slot st.ce i ≡ o
      → Good (record st { ce = add_record sz i r st.ce o; outcomes = os })
  add_record-Good i r st none os k e = k
  add_record-Good i r st (some s) os (a, n) e = (link-Accounted sz namesz i s.ttl st.ce s r a e, n)

  add_records-Good :
      (now i : ℕ) (rrs : List Bytes) (st : Adding) → Good st → GoodAdded (add_records sz i rrs st)
  unfolding add_records
  add_records-Good now i [] st k = k
  add_records-Good now i (r ∷ rrs) st k = elim (Bool-cases (first_outcome st.outcomes)) [
    | inl o ↦ rw o (
        add_records-Good now i rrs _
          (add_record-Good i r st (slot st.ce i) (later_outcomes st.outcomes) k refl))
    | inr o ↦ rw o (clean_slot-Good now i st k).0
  ]

  module _ (same : Bytes → Bytes → Bool) (excludes : ℕ → ℕ → Bool) (g : Global) (now : ℕ)
      (insert_sort : Bool) (cs : List Cent) where
    list_added-Good :
        (i : ℕ) (o : Option RrSet) (st : Adding)
        → Good st
        → slot st.ce i ≡ o
        → GoodAdded (list_added same sz excludes g now insert_sort cs i o st)
    list_added-Good i none st k e = k
    list_added-Good i (some s) st (a, n) e =
        let s' = adjust_ttl g s in
        let (a', e') = put_slot_books sz namesz i st.ce s s' a e (adjust_ttl-rrs g s) in
        ungrown i (insert_set same g insert_sort cs i s' (record st { ce = put_slot st.ce i s' })) (
          insert_set-Good same g insert_sort cs i s' s' (record st { ce = put_slot st.ce i s' })
            (a', n) e' refl)
      where
        ungrown :
            (j : ℕ) (r : Added)
            → GoodAdded r
            → GoodAdded (elim r [
              | continue st' ↦ continue st'
              | stopped st' ↦ stopped (clean_slot sz j st')
            ])
        ungrown j (continue st') k = k
        ungrown j (stopped st') k = (clean_slot-Good now j st' k).0

    fill_set-Good :
        (i : ℕ) (s : RrSet) (st : Adding)
        → Good st
        → GoodAdded (fill_set same sz excludes g now insert_sort cs i s st)
    fill_set-Good i s st k =
        then_do-Good (add_records sz i s.rrs st) _ (add_records-Good now i s.rrs st k)
          (λ st' k'. list_added-Good i (slot st'.ce i) st' k' refl)

    add_set-Good :
        (i : ℕ) (s : RrSet) (ret : ℕ) (st : Adding)
        → i < nrrmu + nrrext
        → Good st
        → slot st.ce i ≡ none
        → GoodAdded (add_set same sz excludes g now insert_sort cs i s ret st)
    add_set-Good i s ret st h (a, n) e =
        let os = st.outcomes in
        let o1 = first_outcome os in
        let o2 = first_outcome (later_outcomes os) in
        let r = add_cent_rrset_by_index sz o1 o2 st.ce i s.ttl s.ts s.flags in
        let k : Accounted sz namesz r.cent × (r.cent.qname ≡ key) = (
          add_cent_rrset_by_index-Accounted sz namesz i s.ttl s.ts st.ce s.flags o1 o2 h a e,
          add_cent_rrset_by_index-qname sz o1 o2 st.ce i s.ttl s.ts s.flags ∙ n,
        ) in
        elim (Bool-cases (ret == 0)) [
          | inl z ↦ rw z (a, n)
          | inr z ↦ elim (Bool-cases (r.ret == 0)) [
            | inl f ↦ rw (z, f) k
            | inr f ↦ rw (z, f) (fill_set-Good i s _ k)
          ]
        ]

    replace_set-Good :
        (i : ℕ) (s : RrSet) (st : Adding)
        → i < nrrmu + nrrext
        → Good st
        → GoodAdded (replace_set same sz excludes g now insert_sort cs i s st)
    unfolding replace_set
    replace_set-Good i s st h k = elim (Bool-cases (stays now (slot st.ce i) s)) [
      | inl e ↦ rw (replace_set, e) k
      | inr e ↦
          let ((a, n), free) = clean_slot-Good now i st k in
          let (a', n', free') =
            cr_check_add-Ready sz excludes i now namesz key (clean_slot sz i st).ce s.ttl s.flags
              (a, n, free) in
          rw (replace_set, e) (add_set-Good i s _ _ h (a', n') free')
    ]

    replace_slot-Good :
        (i : ℕ) (o : Option RrSet) (st : Adding)
        → i < nrrmu + nrrext
        → Good st
        → GoodAdded (replace_slot same sz excludes g now insert_sort cs i o st)
    replace_slot-Good i none st h k = k
    replace_slot-Good i (some s) st h k = replace_set-Good i s st h k

    -- The loop over the sets of a new entry keeps the books of the old one.
    pub replace_sets-Good :
        (left i : ℕ) (c : Cent) (st : Adding)
        → left + i ≤ nrrmu + nrrext
        → Good st
        → GoodAdded (replace_sets same sz excludes g now insert_sort cs left i c st)
    unfolding replace_sets
    replace_sets-Good zero i c st h k = k
    replace_sets-Good (suc left) i c st h k =
        then_do-Good (replace_slot same sz excludes g now insert_sort cs i (slot c i) st) _
          (replace_slot-Good i (slot c i) st (omega arith) k)
          (λ st' k'. replace_sets-Good left (i + 1) c st' (omega arith) k')
