-- ===== src/Cache/Cent/Conflict.antt =====
-- Whether a new record set may be added beside those of an entry (cache.c, `cr_check_add`).
-- `excludes idx i` says that the classes of the table `rr_info`, which make_rr_types_h.pl writes,
-- exclude each other.
use native.Mathlib.Decide.{ℕ_discrete}
use tor_android_service_arch.Cache.Cent.{
  Sizes, SetFlags, RrSet, Cent, Outcome, slot, rrarr_len, del_cent_rrset_by_index,
}
use tor_android_service_arch.Cache.Cent.Accounts.{Accounted, del_cent_rrset_by_index-Accounted}
use tor_android_service_arch.Cache.Cent.Slots.{del_slot_ne}
use tor_android_service_arch.Prelude.{
  ℕ, zero, suc, ◌+◌, ◌-◌, ◌/◌, ◌≡◌, ◌≢◌, refl, arith, Bool, true, false, ◌&&◌, not, ltb, leb, ◌==◌,
  if◌then◌else◌, List, [], ◌++◌, Option, none, some, Bool-cases, Option-cases, inl, inr,
}

abbrev pub conflicts : (ℕ → ℕ → Bool) → ℕ → ℕ → Option RrSet → Bool
conflicts excludes idx i none = false
conflicts excludes idx i (some s) = not s.flags.negative && excludes idx i

abbrev pub remaining : (now : ℕ) → Option RrSet → ℕ
remaining now none = 0
remaining now (some s) = s.ttl + s.ts - now

abbrev pub is_local : Option RrSet → Bool
is_local none = false
is_local (some s) = s.flags.local

module _ (excludes : ℕ → ℕ → Bool) (idx now : ℕ) where
  -- The first loop, for the `left` indices from `i` on: `ncf` and `nttl`, or `none` for its
  -- `return 0`.
  unfoldable pub scan_conflicts : (left i : ℕ) → Cent → (ncf nttl : ℕ) → Option (ℕ × ℕ)
  scan_conflicts zero i c ncf nttl = some (ncf, nttl)
  scan_conflicts (suc left) i c ncf nttl =
      let skip = scan_conflicts left (i + 1) c ncf nttl in
      let next = scan_conflicts left (i + 1) c (ncf + 1) (nttl + remaining now (slot c i)) in
      if conflicts excludes idx i (slot c i)
      then (if is_local (slot c i) then none else next)
      else skip

module _ (sz : Sizes) (excludes : ℕ → ℕ → Bool) (idx now : ℕ) where
  -- The second loop.
  unfoldable pub remove_conflicts : (left i : ℕ) → Cent → Cent × List ℕ
  remove_conflicts zero i c = (c, [])
  remove_conflicts (suc left) i c =
      let skip = remove_conflicts left (i + 1) c in
      let r = del_cent_rrset_by_index sz c i in
      let next = remove_conflicts left (i + 1) r.cent in
      if conflicts excludes idx i (slot c i) then (next.0, r.unlinked ++ next.1) else skip

  unfoldable pub replace_conflicts : Cent → Outcome
  unfolding remove_conflicts
  replace_conflicts c =
      let r = remove_conflicts (rrarr_len c.body) 0 c in
      record { ret = 1; cent = r.0; unlinked = r.1 }

  -- What follows the first loop: the mean time to live of the conflicting sets against the new one's.
  unfoldable pub weigh : Cent → (ttl : ℕ) → Option (ℕ × ℕ) → Outcome
  unfolding replace_conflicts
  weigh c ttl none = record { ret = 0; cent = c; unlinked = [] }
  weigh c ttl (some (ncf, nttl)) =
      if ncf == 0
      then record { ret = 1; cent = c; unlinked = [] }
      else if ltb (nttl / ncf) ttl
      then replace_conflicts c
      else record { ret = 0; cent = c; unlinked = [] }

  unfoldable pub cr_check_add : Cent → (ttl : ℕ) → SetFlags → Outcome
  unfolding scan_conflicts weigh replace_conflicts
  cr_check_add c ttl flags =
      if flags.negative
      then record { ret = 1; cent = c; unlinked = [] }
      else if flags.local
      then replace_conflicts c
      else if c.flags.local
      then record { ret = 0; cent = c; unlinked = [] }
      else weigh c ttl (scan_conflicts excludes idx now (rrarr_len c.body) 0 c 0 0)

  pub remove_conflicts-Accounted :
      (namesz left i : ℕ) (c : Cent)
      → Accounted sz namesz c
      → Accounted sz namesz (remove_conflicts left i c).0
  unfolding remove_conflicts
  remove_conflicts-Accounted namesz zero i c a = a
  remove_conflicts-Accounted namesz (suc left) i c a =
      elim (Bool-cases (conflicts excludes idx i (slot c i))) [
        | inl h ↦ rw h (
            remove_conflicts-Accounted namesz left (i + 1) _
              (del_cent_rrset_by_index-Accounted sz namesz i c a).0)
        | inr h ↦ rw h (remove_conflicts-Accounted namesz left (i + 1) c a)
      ]

  replace_conflicts-Accounted :
      (namesz : ℕ) (c : Cent)
      → Accounted sz namesz c
      → Accounted sz namesz (replace_conflicts c).cent
  unfolding replace_conflicts
  replace_conflicts-Accounted namesz c a = remove_conflicts-Accounted namesz _ 0 c a

  checked :
      (namesz ttl : ℕ) (c : Cent)
      → Accounted sz namesz c
      → Accounted sz namesz
          (weigh c ttl (scan_conflicts excludes idx now (rrarr_len c.body) 0 c 0 0)).cent
  unfolding weigh
  checked namesz ttl c a =
      elim (Option-cases (scan_conflicts excludes idx now (rrarr_len c.body) 0 c 0 0)) [
        | inl e ↦ rw e a
        | inr ((ncf, nttl), e) ↦ rw e (elim (Bool-cases (ncf == 0)) [
          | inl z ↦ rw z a
          | inr z ↦ elim (Bool-cases (ltb (nttl / ncf) ttl)) [
            | inl t ↦ rw (z, t) (replace_conflicts-Accounted namesz c a)
            | inr t ↦ rw (z, t) a
          ]
        ])
      ]

  -- `cr_check_add` keeps the books of the entry.
  pub cr_check_add-Accounted :
      (namesz ttl : ℕ) (c : Cent) (flags : SetFlags)
      → Accounted sz namesz c
      → Accounted sz namesz (cr_check_add c ttl flags).cent
  unfolding cr_check_add
  cr_check_add-Accounted namesz ttl c flags a = elim (Bool-cases flags.negative) [
    | inl n ↦ rw (cr_check_add, n) a
    | inr n ↦ elim (Bool-cases flags.local) [
      | inl l ↦ rw (cr_check_add, n, l) (replace_conflicts-Accounted namesz c a)
      | inr l ↦ elim (Bool-cases c.flags.local) [
        | inl d ↦ simp (cr_check_add, n, l, d) a
        | inr d ↦ simp (cr_check_add, n, l, d) (checked namesz ttl c a)
      ]
    ]
  ]

  step_ne :
      (i j left : ℕ) (b : Bool) (s : Option RrSet)
      → i ≢ j
      → (if leb (i + 1) j && ltb j (i + 1 + left) && b then none else s)
        ≡ (if leb i j && ltb j (i + suc left) && b then none else s)
  step_ne i j left b s n = ground arith

  step_hit :
      (i left : ℕ) (b : Bool) (s : Option RrSet) (s0 : Option RrSet)
      → s0 ≡ none
      → (if leb (i + 1) i && ltb i (i + 1 + left) && b then none else s0)
        ≡ (if leb i i && ltb i (i + suc left) && true then none else s)
  step_hit i left b s s0 e = ground arith

  step_miss :
      (i left : ℕ) (s : Option RrSet)
      → (if leb (i + 1) i && ltb i (i + 1 + left) && false then none else s)
        ≡ (if leb i i && ltb i (i + suc left) && false then none else s)
  step_miss i left s = ground arith

  -- Behind the second loop of `cr_check_add`, no set in its range conflicts with the new one, and
  -- every set that did not conflict is as it was.
  pub remove_conflicts-slot :
      (namesz left i : ℕ) (c : Cent)
      → Accounted sz namesz c
      → (j : ℕ)
      → slot (remove_conflicts left i c).0 j ≡ (
          if leb i j && ltb j (i + left) && conflicts excludes idx j (slot c j)
          then none
          else slot c j)
  unfolding remove_conflicts
  remove_conflicts-slot namesz zero i c a j = ground arith
  remove_conflicts-slot namesz (suc left) i c a j =
      elim (Bool-cases (conflicts excludes idx i (slot c i))) [
        | inl h ↦
            let r = del_cent_rrset_by_index sz c i in
            let k = del_cent_rrset_by_index-Accounted sz namesz i c a in
            let rest = remove_conflicts-slot namesz left (i + 1) r.cent k.0 j in
            rw (h, rest)
              (elim (ℕ_discrete i j) [
                | yes e ↦ rw (← e, k.2, h) (step_hit i left _ (slot c i) none refl)
                | no n ↦ rw (del_slot_ne sz c i j n) (step_ne i j left _ (slot c j) n)
              ])
        | inr h ↦
            let rest = remove_conflicts-slot namesz left (i + 1) c a j in
            rw (h, rest)
              (elim (ℕ_discrete i j) [
                | yes e ↦ rw (← e, h) (step_miss i left (slot c i))
                | no n ↦ step_ne i j left _ (slot c j) n
              ])
      ]
