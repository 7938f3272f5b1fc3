-- ===== src/Cache/Cent/Records.antt =====
-- Freeing and negating whole entries, and adding records (cache.c, `add_cent_rr_int`,
-- `add_cent_rr`, `free_cent`, `negate_cent`).
use tor_android_service_arch.Cache.Cent.{
  neg, rr, Sizes, nrrext, SetFlags, RrSet, Slots, Body, Cent, Outcome, with_body, slot, put_body,
  unlink, add_cent_rrset_by_index, del_rrset,
}
use tor_android_service_arch.Names.{Bytes}
use tor_android_service_arch.Prelude.{
  ℕ, ◌+◌, ◌-◌, ◌*◌, Bool, true, false, ◌&&◌, not, ltb, ◌==◌, if◌then◌else◌, List, [], ◌∷◌, ◌++◌,
  none, some, length,
}

-- The loops `if (rrs) del_rrset(rrs)` over an array.
unfoldable pub del_slots : Sizes → Slots → ℕ × List ℕ
unfolding del_rrset
del_slots sz [] = (0, [])
del_slots sz (none ∷ rrs) = del_slots sz rrs
del_slots sz (some s ∷ rrs) =
    let r = del_slots sz rrs in ((del_rrset sz s).0 + r.0, (del_rrset sz s).1 ++ r.1)

-- The list entries that freeing an entry removes.
unfoldable pub free_cent : Sizes → Cent → List ℕ
unfolding del_slots
free_cent sz c = elim c.body [
  | neg lent ttl ts ↦ unlink lent
  | rr mu none ↦ (del_slots sz mu).1
  | rr mu (some ext) ↦ (del_slots sz mu).1 ++ (del_slots sz ext).1
]

unfoldable pub negate_body : Sizes → Cent → (ttl ts : ℕ) → Body → Cent × List ℕ
unfolding del_slots
negate_body sz c ttl ts (neg lent t s) = (with_body c c.cs c.num_rrs c.flags (neg lent ttl ts), [])
negate_body sz c ttl ts (rr mu none) =
    (with_body c (c.cs - (del_slots sz mu).0) 0 c.flags (neg none ttl ts), (del_slots sz mu).1)
negate_body sz c ttl ts (rr mu (some ext)) = (
  with_body c (c.cs - (del_slots sz mu).0 - (del_slots sz ext).0 - sz.pointer * nrrext) 0 c.flags
      (neg none ttl ts),
  (del_slots sz mu).1 ++ (del_slots sz ext).1,
)

unfoldable pub negate_cent : Sizes → Cent → (ttl ts : ℕ) → Cent × List ℕ
unfolding negate_body
negate_cent sz c ttl ts = negate_body sz c ttl ts c.body

-- `memcmp(rrb->data, data, dlen) == 0` for equal lengths
abbrev pub same_data : Bytes → Bytes → Bool
same_data [] [] = true
same_data [] (b ∷ bs) = false
same_data (a ∷ as') [] = false
same_data (a ∷ as') (b ∷ bs) = a == b && same_data as' bs

abbrev pub has_data : Bytes → List Bytes → Bool
has_data bytes [] = false
has_data bytes (r ∷ rrs) = if same_data r bytes then true else has_data bytes rrs

abbrev pub with_rrs : RrSet → ℕ → List Bytes → RrSet
with_rrs s ttl rrs = record { lent = s.lent; ttl = ttl; ts = s.ts; flags = s.flags; rrs = rrs }

-- The set with this record linked in: behind the last one, `rtail`, where there is one, and
-- otherwise as the only one (`rtail` stays NULL only where the list is empty).
abbrev pub link : Sizes → Cent → ℕ → ℕ → RrSet → Bytes → Cent
link sz c idx ttl s bytes =
    with_body c (c.cs + sz.rr_bucket + length bytes) c.num_rrs c.flags
      (put_body c.body idx (some (with_rrs s ttl (s.rrs ++ bytes ∷ []))))

-- The part of `add_cent_rr_int` for a type that has no set yet.
unfoldable pub add_first :
    Sizes
    → (allocated_ext allocated_set : Bool) → Cent
    → (idx ttl ts : ℕ) → SetFlags
    → Bytes
    → Outcome
unfolding add_cent_rrset_by_index
add_first sz allocated_ext allocated_set c idx ttl ts flags bytes =
    let r = add_cent_rrset_by_index sz allocated_ext allocated_set c idx ttl ts flags in
    if r.ret == 0 then r else elim (slot r.cent idx) [
      | none ↦ r
      | some s ↦ record { ret = 1; cent = link sz r.cent idx s.ttl s bytes; unlinked = r.unlinked }
    ]

-- The arguments `allocated_…` are the outcomes of the calls of `malloc`: for the record, the second
-- array, and the set. `idx` is `rrlkuptab[type - T_MIN]`.
unfoldable pub add_cent_rr :
    Sizes
    → (allocated_rr allocated_ext allocated_set : Bool) → Cent
    → (idx ttl ts : ℕ) → SetFlags
    → Bytes
    → Outcome
unfolding add_first
add_cent_rr sz allocated_rr allocated_ext allocated_set c idx ttl ts flags bytes =
    if c.flags.local && not flags.local
    then record { ret = 1; cent = c; unlinked = [] }
    else elim (slot c idx) [
      | none ↦
          if allocated_rr
          then add_first sz allocated_ext allocated_set c idx ttl ts flags bytes
          else record { ret = 0; cent = c; unlinked = [] }
      | some s ↦
          let t = if ltb ttl s.ttl then ttl else s.ttl in
          let lowered =
            with_body c c.cs c.num_rrs c.flags (put_body c.body idx (some (with_rrs s t s.rrs))) in
          if has_data bytes s.rrs
          then record { ret = 1; cent = lowered; unlinked = [] }
          else if allocated_rr
          then record { ret = 1; cent = link sz c idx t s bytes; unlinked = [] }
          else record { ret = 0; cent = lowered; unlinked = [] }
    ]
