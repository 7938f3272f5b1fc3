-- ===== src/Cache/Cent/Add.antt =====
-- The books of an entry under `add_cent_rr`.
use mathlib.Core.Path.{subst}
use tor_android_service_arch.Cache.Cent.{
  Sizes, nrrmu, nrrext, neg, rr, SetFlags, RrSet, Slots, Body, Cent, with_body, slot, slot_of_body,
  put_body, make_positive, ensure, empty_body, add_cent_rrset_by_index, rrs_size,
}
use tor_android_service_arch.Cache.Cent.Records.{add_first, add_cent_rr, link, with_rrs, has_data}
use tor_android_service_arch.Names.{Bytes}
use tor_android_service_arch.Prelude.{
  ℕ, ◌+◌, ◌-◌, ◌<◌, ◌≡◌, refl, sym, ap, ◌∙◌, arith, Bool, true, false, ◌&&◌, not, ltb, ◌==◌, List,
  [], ◌∷◌, ◌++◌, Option, none, some, length, replicate, get_or-replicate, Bool-cases, Option-cases,
  inl, inr,
}
use tor_android_service_arch.Cache.Cent.Accounts.{
  Accounted, Shaped, HasSlot, set_size, present, body_size, body_count, slots_size-replicate,
  slots_count-replicate, put-Accounted, put_body-size, put_body-count, put_body-Shaped,
  some-HasSlot,
}

module _ (sz : Sizes) where
  -- What `ensure` may give for an entry body.
  abbrev Ensured : Body → ℕ → Option (ℕ × Body) → Type 0
  Ensured b idx none = Unit
  Ensured b idx (some (grown, b')) =
      Shaped sz b'
      × HasSlot sz b' idx
      × (body_size sz b' ≡ body_size sz b + grown)
      × (body_count sz b' ≡ body_count sz b)
      × (slot_of_body b idx ≡ none → slot_of_body b' idx ≡ none)

  ensure-Ensured :
      (idx : ℕ) (mu : Slots) (ext : Option Slots) (allocated : Bool)
      → idx < nrrmu + nrrext
      → Shaped sz (rr mu ext)
      → Ensured (rr mu ext) idx (ensure sz allocated idx (rr mu ext))
  ensure-Ensured idx mu none false h w = elim (Bool-cases (ltb idx nrrmu)) [
    | inl lo ↦ rw lo (w, ground arith, omega arith, refl, λ e. e)
    | inr hi ↦ rw hi tt
  ]
  ensure-Ensured idx mu none true h w = elim (Bool-cases (ltb idx nrrmu)) [
    | inl lo ↦ rw lo (w, ground arith, omega arith, refl, λ e. e)
    | inr hi ↦ rw hi (
      (w, refl),
      h,
      omega (arith, slots_size-replicate sz nrrext),
      omega (arith, slots_count-replicate sz nrrext),
      λ e. rw hi (get_or-replicate nrrext (idx - nrrmu) none),
    )
  ]
  ensure-Ensured idx mu (some ext) allocated h w = elim (Bool-cases (ltb idx nrrmu)) [
    | inl lo ↦ rw lo (w, h, omega arith, refl, λ e. e)
    | inr hi ↦ rw hi (w, h, omega arith, refl, λ e. e)
  ]

  empty_size : body_size sz empty_body ≡ 0
  empty_size = slots_size-replicate sz nrrmu

  empty_count : body_count sz empty_body ≡ 0
  empty_count = slots_count-replicate sz nrrmu

  empty_slot : (idx : ℕ) → slot_of_body empty_body idx ≡ none
  empty_slot idx = elim (Bool-cases (ltb idx nrrmu)) [
    | inl lo ↦ rw lo (get_or-replicate nrrmu idx none)
    | inr hi ↦ rw hi refl
  ]

  make_positive-Ensured :
      (idx : ℕ) (b : Body) (allocated : Bool)
      → idx < nrrmu + nrrext
      → Shaped sz b
      → Ensured b idx (ensure sz allocated idx (make_positive b).1)
  make_positive-Ensured idx (rr mu ext) allocated h w = ensure-Ensured idx mu ext allocated h w
  make_positive-Ensured idx (neg lent ttl ts) allocated h w =
      elim (Option-cases (ensure sz allocated idx empty_body)) [
        | inl e ↦ rw e tt
        | inr ((grown, b'), e) ↦
            let q =
              subst (Ensured empty_body idx) e
                (ensure-Ensured idx (replicate nrrmu none) none allocated h refl) in
            rw e (
              q.0,
              q.1,
              omega (arith, q.2, empty_size),
              q.3 ∙ empty_count,
              λ n. q.4 (empty_slot idx),
            )
      ]

  make_positive-body :
      (b : Body)
      → Shaped sz b
      → Shaped sz (make_positive b).1
        × (body_size sz (make_positive b).1 ≡ body_size sz b)
        × (body_count sz (make_positive b).1 ≡ body_count sz b)
  make_positive-body (rr mu ext) w = (w, refl, refl)
  make_positive-body (neg lent ttl ts) w = (refl, empty_size, empty_count)

  make_positive-Accounted :
      (namesz : ℕ) (c : Cent)
      → Accounted sz namesz c
      → Accounted sz namesz (with_body c c.cs c.num_rrs c.flags (make_positive c.body).1)
  make_positive-Accounted namesz c a =
      let (w, size, count) = make_positive-body c.body a.shaped in
      record { shaped = w; size = omega (arith, size, a.size); count = a.count ∙ sym count }

  store-Accounted :
      (namesz idx grown cs num : ℕ) (c : Cent) (b : Body) (v : Option RrSet)
      → Accounted sz namesz c
      → slot c idx ≡ none
      → Ensured c.body idx (some (grown, b))
      → cs ≡ c.cs + grown + set_size sz v
      → num ≡ c.num_rrs + present sz v
      → Accounted sz namesz (with_body c cs num c.flags (put_body b idx v))
  store-Accounted namesz idx grown cs num c b v a n q e f =
      let free = q.4 n in
      record {
        shaped = put_body-Shaped sz b idx v q.0;
        size = omega (arith, a.size, q.2, ap (set_size sz) free, put_body-size sz b idx v q.0 q.1);
        count =
            omega (arith, a.count, q.3, ap (present sz) free, put_body-count sz b idx v q.0 q.1);
      }

  -- Adding an empty record set keeps the books, also where `malloc` fails.
  pub add_cent_rrset_by_index-Accounted :
      (namesz idx ttl ts : ℕ) (c : Cent) (flags : SetFlags) (allocated_ext allocated_set : Bool)
      → idx < nrrmu + nrrext
      → Accounted sz namesz c
      → slot c idx ≡ none
      → Accounted sz namesz
          (add_cent_rrset_by_index sz allocated_ext allocated_set c idx ttl ts flags).cent
  unfolding add_cent_rrset_by_index
  add_cent_rrset_by_index-Accounted namesz idx ttl ts c flags al true h a n =
      elim (Option-cases (ensure sz al idx (make_positive c.body).1)) [
        | inl e ↦ rw (add_cent_rrset_by_index, e) (make_positive-Accounted namesz c a)
        | inr ((grown, b), e) ↦
            let q = subst (Ensured c.body idx) e (make_positive-Ensured idx c.body al h a.shaped) in
            rw (add_cent_rrset_by_index, e)
              (store-Accounted namesz idx grown _ _ c b _ a n q (omega arith) (omega arith))
      ]
  add_cent_rrset_by_index-Accounted namesz idx ttl ts c flags al false h a n =
      elim (Option-cases (ensure sz al idx (make_positive c.body).1)) [
        | inl e ↦ rw (add_cent_rrset_by_index, e) (make_positive-Accounted namesz c a)
        | inr ((grown, b), e) ↦
            let q = subst (Ensured c.body idx) e (make_positive-Ensured idx c.body al h a.shaped) in
            rw (add_cent_rrset_by_index, e)
              (store-Accounted namesz idx grown _ _ c b none a n q (omega arith) (omega arith))
      ]

  rrs_size-append :
      (rrs : List Bytes) (r : Bytes)
      → rrs_size sz (rrs ++ r ∷ []) ≡ rrs_size sz rrs + (sz.rr_bucket + length r)
  rrs_size-append [] r = omega arith
  rrs_size-append (x ∷ rrs) r = omega (arith, rrs_size-append rrs r)

  -- A record linked into a set that is there.
  pub link-Accounted :
      (namesz idx ttl : ℕ) (c : Cent) (s : RrSet) (bytes : Bytes)
      → Accounted sz namesz c
      → slot c idx ≡ some s
      → Accounted sz namesz (link sz c idx ttl s bytes)
  link-Accounted namesz idx ttl c s bytes a e =
      put-Accounted sz namesz c idx c.flags _ _ _ a (some-HasSlot sz c.body idx s a.shaped e)
        (omega (arith, ap (set_size sz) e, rrs_size-append s.rrs bytes))
        (omega (arith, ap (present sz) e))

  lower-Accounted :
      (namesz idx ttl : ℕ) (c : Cent) (s : RrSet)
      → Accounted sz namesz c
      → slot c idx ≡ some s
      → Accounted sz namesz
          (with_body c c.cs c.num_rrs c.flags (put_body c.body idx (some (with_rrs s ttl s.rrs))))
  lower-Accounted namesz idx ttl c s a e =
      put-Accounted sz namesz c idx c.flags _ _ _ a (some-HasSlot sz c.body idx s a.shaped e)
        (omega (arith, ap (set_size sz) e)) (omega (arith, ap (present sz) e))

  add_first-Accounted :
      (namesz idx ttl ts : ℕ) (c : Cent) (flags : SetFlags) (al_ext al_set : Bool) (bytes : Bytes)
      → idx < nrrmu + nrrext
      → Accounted sz namesz c
      → slot c idx ≡ none
      → Accounted sz namesz (add_first sz al_ext al_set c idx ttl ts flags bytes).cent
  unfolding add_first
  add_first-Accounted namesz idx ttl ts c flags al_ext al_set bytes h a n =
      let r = add_cent_rrset_by_index sz al_ext al_set c idx ttl ts flags in
      let k = add_cent_rrset_by_index-Accounted namesz idx ttl ts c flags al_ext al_set h a n in
      elim (Bool-cases (r.ret == 0)) [
        | inl z ↦ rw (add_first, z) k
        | inr z ↦ elim (Option-cases (slot r.cent idx)) [
          | inl e ↦ rw (add_first, z, e) k
          | inr (s, e) ↦ rw (add_first, z, e) (link-Accounted namesz idx s.ttl r.cent s bytes k e)
        ]
      ]

  -- `add_cent_rr` keeps the books of an entry, whichever of its calls of `malloc` fail.
  pub add_cent_rr-Accounted :
      (namesz idx ttl ts : ℕ) (c : Cent) (flags : SetFlags) (bytes : Bytes)
      (allocated_rr allocated_ext allocated_set : Bool)
      → idx < nrrmu + nrrext
      → Accounted sz namesz c
      → Accounted sz namesz
          (add_cent_rr sz allocated_rr allocated_ext allocated_set c idx ttl ts flags bytes).cent
  unfolding add_cent_rr
  add_cent_rr-Accounted namesz idx ttl ts c flags bytes al al_ext al_set h a =
      elim (Bool-cases (c.flags.local && not flags.local)) [
        | inl l ↦ rw (add_cent_rr, l) a
        | inr l ↦ elim (Option-cases (slot c idx)) [
          | inl e ↦
              rw (add_cent_rr, l, e)
                (elim (Bool-cases al) [
                  | inl z ↦
                      rw z (add_first-Accounted namesz idx ttl ts c flags al_ext al_set bytes h a e)
                  | inr z ↦ rw z a
                ])
          | inr (s, e) ↦
              rw (add_cent_rr, l, e)
                (elim (Bool-cases (has_data bytes s.rrs)) [
                  | inl d ↦ rw d (lower-Accounted namesz idx _ c s a e)
                  | inr d ↦ rw d (elim (Bool-cases al) [
                    | inl z ↦ rw z (link-Accounted namesz idx _ c s bytes a e)
                    | inr z ↦ rw z (lower-Accounted namesz idx _ c s a e)
                  ])
                ])
        ]
      ]
