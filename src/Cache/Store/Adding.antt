-- ===== src/Cache/Store/Adding.antt =====
-- Filling an entry with record sets (cache.c, the loops of `add_cache`). The outcomes of the calls
-- of `malloc` are a list, in order, which is followed by successes; a new set takes two, of which the
-- first counts only where the second array is allocated. `excludes` is the relation of
-- the classes of `rr_info`, `now` the result of `time(NULL)`.
use tor_android_service_arch.Cache.Cent.{
  Sizes, CentFlags, RrSet, Body, neg, rr, Cent, slot, put_body, rrarr_len, add_cent_rrset_by_index,
  del_cent_rrset_by_index,
}
use tor_android_service_arch.Cache.Cent.Conflict.{cr_check_add}
use tor_android_service_arch.Cache.Cent.Records.{link}
use tor_android_service_arch.Cache.Cent.Ttl.{Global, timedout, adjust_ttl, adjust_dom_ttl}
use tor_android_service_arch.Cache.Rrl.{insert_rrl}
use tor_android_service_arch.Cache.Store.{Lent, remove_all, get_rrlent_ts, is_negative}
use tor_android_service_arch.Cache.Store.Purge.{local_set}
use tor_android_service_arch.Names.{Bytes}
use tor_android_service_arch.Prelude.{
  ℕ, zero, suc, ◌+◌, Bool, true, false, ◌&&◌, ◌||◌, not, ltb, ◌==◌, if◌then◌else◌, List, [], ◌∷◌,
  Option, none, some,
}

-- The variables of the loops: the entry, the list `rrset_l`, the next free address, and the outcomes
-- to come.
pub record Adding : Type 0 where
  pub ce : Cent
  pub rrl : List Lent
  pub fresh : ℕ
  pub outcomes : List Bool

-- `stopped` is one of the jumps for want of memory.
pub data Added : Type 0 where
  continue stopped : Adding → Added

abbrev pub then_do : Added → (Adding → Added) → Added
then_do (continue st) f = f st
then_do (stopped st) f = stopped st

abbrev pub first_outcome : List Bool → Bool
first_outcome [] = true
first_outcome (o ∷ os) = o

abbrev pub later_outcomes : List Bool → List Bool
later_outcomes [] = []
later_outcomes (o ∷ os) = os

abbrev pub put_slot : Cent → ℕ → RrSet → Cent
put_slot c i s = record c { body = put_body c.body i (some s) }

-- `cent->neg.lent=ne`
abbrev pub set_neg_lent : Body → ℕ → Body
set_neg_lent (neg lent ttl ts) id = neg (some id) ttl ts
set_neg_lent (rr mu ext) id = rr mu ext

-- "Local records have precedence. …": the set that is there stays.
abbrev pub stays : (now : ℕ) → Option RrSet → RrSet → Bool
stays now none s = false
stays now (some o) s =
    (not s.flags.local && o.flags.local)
    || (s.flags.additional
        && (not o.flags.additional || (not s.flags.rootserv && o.flags.rootserv))
        && not (timedout now o))

-- `ce->flags |= (cent->flags&(DF_AUTH|DF_WILD))`
abbrev pub or_auth_wild : CentFlags → CentFlags → CentFlags
or_auth_wild f g = record {
  local = f.local;
  auth = f.auth || g.auth;
  nocache = f.nocache;
  wild = f.wild || g.wild;
}

-- `if(cent->c_ns!=cundef && (ce->c_ns==cundef || ce->c_ns<cent->c_ns)) ce->c_ns=cent->c_ns;`
abbrev pub larger_ref : Option ℕ → Option ℕ → Option ℕ
larger_ref old none = old
larger_ref none (some n) = some n
larger_ref (some o) (some n) = if ltb o n then some n else some o

-- Does the entry hold a set that is local, among the `left` from `i` on?
abbrev pub has_local : (left i : ℕ) → Cent → Bool
has_local zero i c = false
has_local (suc left) i c = local_set (slot c i) || has_local left (i + 1) c

module _ (same : Bytes → Bytes → Bool) (g : Global) (insert_sort : Bool) (cs : List Cent) where
  -- `insert_rrl(rrset, ce, i)`, which draws on `malloc` for a set that is not local.
  abbrev pub insert_set : ℕ → RrSet → Adding → Added
  insert_set i s st =
      if s.flags.local || st.ce.flags.local
      then continue st
      else elim (insert_rrl (get_rrlent_ts same (st.ce ∷ cs)) false (first_outcome st.outcomes)
          insert_sort (record { id = st.fresh; cent = st.ce.qname; idx = some i }) st.rrl) [
            | none ↦ stopped (record st { outcomes = later_outcomes st.outcomes })
            | some l ↦ continue (record {
              ce = put_slot st.ce i (record s { lent = some st.fresh });
              rrl = l;
              fresh = st.fresh + 1;
              outcomes = later_outcomes st.outcomes;
            })
          ]

  -- `insert_rrl(NULL, ce, -1)`
  abbrev pub insert_neg : Adding → Added
  insert_neg st =
      if st.ce.flags.local
      then continue st
      else elim (insert_rrl (get_rrlent_ts same (st.ce ∷ cs)) false (first_outcome st.outcomes)
          insert_sort (record { id = st.fresh; cent = st.ce.qname; idx = none }) st.rrl) [
            | none ↦ stopped (record st { outcomes = later_outcomes st.outcomes })
            | some l ↦ continue (record {
              ce = record st.ce { body = set_neg_lent st.ce.body st.fresh };
              rrl = l;
              fresh = st.fresh + 1;
              outcomes = later_outcomes st.outcomes;
            })
          ]

  -- `adjust_ttl(rrset); insert_rrl(rrset,ce,i)` for a set of a new entry
  abbrev pub list_slot : ℕ → Option RrSet → Adding → Added
  list_slot i none st = continue st
  list_slot i (some s) st =
      insert_set i (adjust_ttl g s) (record st { ce = put_slot st.ce i (adjust_ttl g s) })

  unfoldable pub list_slots : (left i : ℕ) → Adding → Added
  list_slots zero i st = continue st
  list_slots (suc left) i st = then_do (list_slot i (slot st.ce i) st) (list_slots left (i + 1))

  unfoldable pub list_new : Adding → Added
  unfolding list_slots
  list_new st =
      if is_negative st.ce.body
      then insert_neg (record st { ce = adjust_dom_ttl g st.ce })
      else list_slots (rrarr_len st.ce.body) 0 st

module _ (sz : Sizes) where
  -- `del_cent_rrset_by_index(ce, i)`
  abbrev pub clean_slot : ℕ → Adding → Adding
  clean_slot i st =
      let r = del_cent_rrset_by_index sz st.ce i in
      record st { ce = r.cent; rrl = remove_all r.unlinked st.rrl }

  -- `add_cent_rr_int` with the tail of the set at hand; the set is there.
  abbrev pub add_record : ℕ → Bytes → Cent → Option RrSet → Cent
  add_record i r c none = c
  add_record i r c (some s) = link sz c i s.ttl s r

  unfoldable pub add_records : ℕ → List Bytes → Adding → Added
  unfolding del_cent_rrset_by_index
  add_records i [] st = continue st
  add_records i (r ∷ rrs) st =
      let rest = add_records i rrs (record st {
        ce = add_record i r st.ce (slot st.ce i);
        outcomes = later_outcomes st.outcomes;
      }) in
      if first_outcome st.outcomes then rest else stopped (clean_slot i st)

module _ (same : Bytes → Bytes → Bool) (sz : Sizes) (excludes : ℕ → ℕ → Bool) (g : Global) (now : ℕ)
    (insert_sort : Bool) (cs : List Cent) where
  -- `cerrs = RRARR_INDEX(ce,i); adjust_ttl(cerrs); insert_rrl(cerrs,ce,i)`
  abbrev pub list_added : ℕ → Option RrSet → Adding → Added
  list_added i none st = continue st
  list_added i (some s) st =
      elim (insert_set same g insert_sort cs i (adjust_ttl g s)
        (record st { ce = put_slot st.ce i (adjust_ttl g s) })) [
          | continue st' ↦ continue st'
          | stopped st' ↦ stopped (clean_slot sz i st')
        ]

  -- The records of the new set, once the empty set is there.
  abbrev pub fill_set : ℕ → RrSet → Adding → Added
  fill_set i s st = then_do (add_records sz i s.rrs st) (λ st'. list_added i (slot st'.ce i) st')

  -- What follows `cr_check_add`: the empty set, or the next round.
  abbrev pub add_set : ℕ → RrSet → (ret : ℕ) → Adding → Added
  add_set i s ret st =
      let os = st.outcomes in
      let r =
        add_cent_rrset_by_index sz (first_outcome os) (first_outcome (later_outcomes os)) st.ce i
          s.ttl s.ts s.flags in
      let st' = record st {
        ce = r.cent;
        rrl = remove_all r.unlinked st.rrl;
        outcomes = later_outcomes (later_outcomes os);
      } in
      if ret == 0 then continue st else if r.ret == 0 then stopped st' else fill_set i s st'

  unfoldable pub replace_set : ℕ → RrSet → Adding → Added
  unfolding add_records
  replace_set i s st =
      let st1 = clean_slot sz i st in
      let r = cr_check_add sz excludes i now st1.ce s.ttl s.flags in
      if stays now (slot st.ce i) s
      then continue st
      else add_set i s r.ret (record st1 { ce = r.cent; rrl = remove_all r.unlinked st1.rrl })

  abbrev pub replace_slot : ℕ → Option RrSet → Adding → Added
  replace_slot i none st = continue st
  replace_slot i (some s) st = replace_set i s st

  -- The loop over the sets of the new entry `c`.
  unfoldable pub replace_sets : (left i : ℕ) → Cent → Adding → Added
  unfolding replace_set
  replace_sets zero i c st = continue st
  replace_sets (suc left) i c st =
      then_do (replace_slot i (slot c i) st) (replace_sets left (i + 1) c)
