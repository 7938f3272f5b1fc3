-- ===== src/Reply/Entries.antt =====
-- The entries of `centa` under `rr_to_cache`: their books, and their names.
use tor_android_service_arch.Query.{rc_fatalerr}
use tor_android_service_arch.Cache.Cent.Accounts.{
  Accounted, slots_size-replicate, slots_count-replicate,
}
use tor_android_service_arch.Cache.Cent.Add.{add_cent_rr-Accounted}
use tor_android_service_arch.Cache.Cent.Records.{add_cent_rr, add_first}
use tor_android_service_arch.Cache.Store.Kept.{add_cent_rrset_by_index-qname}
use tor_android_service_arch.Cache.Cent.{Sizes, SetFlags, Cent, nrrmu, nrrext, init_cent}
use tor_android_service_arch.Names.Wire.{Label}
use tor_android_service_arch.Names.{Bytes}
use tor_android_service_arch.Message.Fits.{Fits}
use tor_android_service_arch.Prelude.{
  Option, none, ℕ, ◌+◌, ◌<◌, ◌≡◌, ◌⊎◌, inl, inr, refl, sym, arith, Bool, true, false, Bool-cases,
  ◌==◌, List, [], ◌∷◌, ◌++◌, some, length,
}
use tor_android_service_arch.Reply.{
  Mallocs, NewRr, has_cent, add_to_cent, rc_of, grow_centa, add_to_first, rr_to_cache, zero_flags,
}

module _ (sz : Sizes) where
  add_cent_rr-qname :
      (c : Cent) (idx ttl ts : ℕ) (flags : SetFlags) (bytes : Bytes) (al al_ext al_set : Bool)
      → (add_cent_rr sz al al_ext al_set c idx ttl ts flags bytes).cent.qname ≡ c.qname
  unfolding add_cent_rr add_first
  add_cent_rr-qname c idx ttl ts flags bytes al al_ext al_set =
      ground (arith, add_cent_rrset_by_index-qname sz al_ext al_set c idx ttl ts flags)

  -- Every entry's size and count are those of what it holds.
  abbrev pub Books : List Cent → Type 0
  Books [] = Unit
  Books (c ∷ cs) = Accounted sz (length c.qname) c × Books cs

  Books-append :
      (cs : List Cent) (c : Cent)
      → Books cs
      → Accounted sz (length c.qname) c
      → Books (cs ++ c ∷ [])
  Books-append [] c b a = (a, tt)
  Books-append (d ∷ cs) c b a = (b.0, Books-append cs c b.1 a)

-- No two entries are for one name.
module _ (same : Bytes → Bytes → Bool) where
  abbrev pub Unlike : Bytes → List Cent → Type 0
  Unlike nm [] = Unit
  Unlike nm (c ∷ cs) = (same nm c.qname ≡ false) × Unlike nm cs

  abbrev pub Distinct : List Cent → Type 0
  Distinct [] = Unit
  Distinct (c ∷ cs) = Unlike c.qname cs × Distinct cs

  Unlike-append :
      (nm : Bytes) (cs : List Cent) (c : Cent)
      → Unlike nm cs
      → same nm c.qname ≡ false
      → Unlike nm (cs ++ c ∷ [])
  Unlike-append nm [] c u e = (e, tt)
  Unlike-append nm (d ∷ cs) c u e = (u.0, Unlike-append nm cs c u.1 e)

  Distinct-append :
      (cs : List Cent) (c : Cent)
      → Distinct cs
      → has_cent same c.qname cs ≡ false
      → Distinct (cs ++ c ∷ [])
  Distinct-append [] c d e = (tt, tt)
  Distinct-append (b ∷ cs) c d e = (
    Unlike-append b.qname cs c d.0 (ground (arith, e)),
    Distinct-append cs c d.1 (ground (arith, e)),
  )

-- Every entry is for a name that fits into a buffer.
abbrev pub AllFit : List Cent → Type 0
AllFit [] = Unit
AllFit (c ∷ cs) = ((ls : List Label) × Fits c.qname ls) × AllFit cs

AllFit-append :
    (cs : List Cent) (c : Cent) (ls : List Label)
    → AllFit cs
    → Fits c.qname ls
    → AllFit (cs ++ c ∷ [])
AllFit-append [] c ls a f = ((ls, f), tt)
AllFit-append (d ∷ cs) c ls a f = (a.0, AllFit-append cs c ls a.1 f)

-- The first entry is the one for a name, where one is given.
abbrev pub Leads : Option Bytes → List Cent → Type 0
Leads none cs = Unit
Leads (some nm) [] = ⊥
Leads (some nm) (c ∷ cs) = c.qname ≡ nm

-- What a call may return.
pub record EntriesKept (sz : Sizes) (same : Bytes → Bytes → Bool) (r : ℕ × List Cent) : Type 0 where
  pub books : Books sz r.1
  pub distinct : Distinct same r.1
  pub returns : (r.0 ≡ 0) ⊎ (r.0 ≡ rc_fatalerr)

module _ (sz : Sizes) (flags : SetFlags) (queryts : ℕ) (al : Mallocs) (n : NewRr) where
  add_to_cent-qname : (c : Cent) → (add_to_cent sz flags queryts al n c).cent.qname ≡ c.qname
  add_to_cent-qname c = add_cent_rr-qname sz c n.idx n.ttl queryts flags n.rdata al.rr al.ext al.set

  add_to_cent-Accounted :
      (c : Cent)
      → n.idx < nrrmu + nrrext
      → Accounted sz (length c.qname) c
      → Accounted sz
          (length (add_to_cent sz flags queryts al n c).cent.qname)
          (add_to_cent sz flags queryts al n c).cent
  add_to_cent-Accounted c h a =
      rw (add_cent_rr-qname sz c n.idx n.ttl queryts flags n.rdata al.rr al.ext al.set) (
        add_cent_rr-Accounted sz (length c.qname) n.idx n.ttl queryts c flags n.rdata al.rr al.ext
          al.set h a)

  rc_of_cases :
      (c : Cent)
      → let rc = rc_of sz flags queryts (add_to_cent sz flags queryts al n c) in
        (rc ≡ 0) ⊎ (rc ≡ rc_fatalerr)
  rc_of_cases c = elim (Bool-cases ((add_to_cent sz flags queryts al n c).ret == 0)) [
    | inl z ↦ rw z (inr refl)
    | inr z ↦ rw z (inl refl)
  ]

  module _ (same : Bytes → Bytes → Bool) where
    add_to_first-Unlike :
        (nm : Bytes) (cs : List Cent)
        → Unlike same nm cs
        → Unlike same nm (add_to_first sz flags queryts same al n cs).1
    add_to_first-Unlike nm [] u = tt
    add_to_first-Unlike nm (c ∷ cs) u = elim (Bool-cases (same c.qname n.oname)) [
      | inl z ↦ rw (z, add_to_cent-qname c) u
      | inr z ↦ rw z (u.0, add_to_first-Unlike nm cs u.1)
    ]

    add_to_first-EntriesKept :
        (cs : List Cent)
        → n.idx < nrrmu + nrrext
        → Books sz cs
        → Distinct same cs
        → EntriesKept sz same (add_to_first sz flags queryts same al n cs)
    add_to_first-EntriesKept [] h b d = record { books = tt; distinct = tt; returns = inr refl }
    add_to_first-EntriesKept (c ∷ cs) h b d = elim (Bool-cases (same c.qname n.oname)) [
      | inl z ↦ rw z (record {
        books = (add_to_cent-Accounted c h b.0, b.1);
        distinct = rw (add_to_cent-qname c) d;
        returns = rc_of_cases c;
      })
      | inr z ↦
          let k = add_to_first-EntriesKept cs h b.1 d.1 in
          rw z (record {
            books = (b.0, k.books);
            distinct = (add_to_first-Unlike c.qname cs d.0, k.distinct);
            returns = k.returns;
          })
    ]

    grow_centa-EntriesKept :
        (cs : List Cent) (c : Cent)
        → n.idx < nrrmu + nrrext
        → Books sz cs
        → Distinct same cs
        → Accounted sz (length c.qname) c
        → has_cent same c.qname cs ≡ false
        → EntriesKept sz same (grow_centa sz flags queryts al n cs (some c))
    grow_centa-EntriesKept cs c h b d a e = record {
      books = Books-append sz cs _ b (add_to_cent-Accounted c h a);
      distinct = Distinct-append same cs _ d (rw (add_to_cent-qname c) e);
      returns = rc_of_cases c;
    }

    init_cent-EntriesKept :
        (cs : List Cent) (allocated : Bool)
        → n.idx < nrrmu + nrrext
        → Books sz cs
        → Distinct same cs
        → has_cent same n.oname cs ≡ false
        → EntriesKept sz same (
            grow_centa sz flags queryts al n cs
              (init_cent sz allocated false n.oname (length n.oname) 0 0 zero_flags))
    unfolding init_cent
    init_cent-EntriesKept cs false h b d e = record { books = b; distinct = d; returns = inr refl }
    init_cent-EntriesKept cs true h b d e =
        grow_centa-EntriesKept cs _ h b d
          (record {
            shaped = refl;
            size = omega (arith, slots_size-replicate sz nrrmu);
            count = sym (slots_count-replicate sz nrrmu);
          })
          e

    -- `rr_to_cache` keeps the books of every entry and never makes a second entry for a name, whichever
    -- of its calls of `malloc` fail; it returns RC_OK or RC_FATALERR.
    pub rr_to_cache-EntriesKept :
        (cs : List Cent)
        → n.idx < nrrmu + nrrext
        → Books sz cs
        → Distinct same cs
        → EntriesKept sz same (rr_to_cache sz flags queryts same al n cs)
    unfolding rr_to_cache
    rr_to_cache-EntriesKept cs h b d = elim (Bool-cases (has_cent same n.oname cs)) [
      | inl z ↦ rw z (add_to_first-EntriesKept cs h b d)
      | inr z ↦ elim (Bool-cases al.grown) [
        | inl g ↦ rw (z, g) (init_cent-EntriesKept cs al.cent h b d z)
        | inr g ↦ rw (z, g) (record { books = tt; distinct = tt; returns = inr refl })
      ]
    ]

    add_to_first-Leads :
        (lead : Option Bytes) (cs : List Cent)
        → Leads lead cs
        → Leads lead (add_to_first sz flags queryts same al n cs).1
    add_to_first-Leads none cs l = tt
    add_to_first-Leads (some nm) [] l = l
    add_to_first-Leads (some nm) (c ∷ cs) l = elim (Bool-cases (same c.qname n.oname)) [
      | inl z ↦ rw (z, add_to_cent-qname c) l
      | inr z ↦ rw z l
    ]

    grow_centa-Leads :
        (lead : Option Bytes) (cs : List Cent) (o : Option Cent)
        → Leads lead cs
        → Leads lead (grow_centa sz flags queryts al n cs o).1
    grow_centa-Leads none cs o l = tt
    grow_centa-Leads (some nm) [] o l = absurd l
    grow_centa-Leads (some nm) (c ∷ cs) none l = l
    grow_centa-Leads (some nm) (c ∷ cs) (some d) l = l

    -- With RC_OK the first entry stays where it is.
    pub rr_to_cache-Leads :
        (lead : Option Bytes) (cs : List Cent)
        → Leads lead cs
        → (rr_to_cache sz flags queryts same al n cs).0 ≡ 0
        → Leads lead (rr_to_cache sz flags queryts same al n cs).1
    unfolding rr_to_cache
    rr_to_cache-Leads lead cs l = elim (Bool-cases (has_cent same n.oname cs)) [
      | inl z ↦ rw z (λ e. add_to_first-Leads lead cs l)
      | inr z ↦ elim (Bool-cases al.grown) [
        | inl g ↦ rw (z, g) (λ e. grow_centa-Leads lead cs _ l)
        | inr g ↦ rw (z, g) (λ e. absurd (omega (arith, e)))
      ]
    ]

    add_to_first-AllFit :
        (cs : List Cent) → AllFit cs → AllFit (add_to_first sz flags queryts same al n cs).1
    add_to_first-AllFit [] a = tt
    add_to_first-AllFit (c ∷ cs) a = elim (Bool-cases (same c.qname n.oname)) [
      | inl z ↦ rw (z, add_to_cent-qname c) a
      | inr z ↦ rw z (a.0, add_to_first-AllFit cs a.1)
    ]

    init_cent-AllFit :
        (cs : List Cent) (allocated : Bool) (ls : List Label)
        → AllFit cs
        → Fits n.oname ls
        → AllFit
            (grow_centa sz flags queryts al n cs
              (init_cent sz allocated false n.oname (length n.oname) 0 0 zero_flags)).1
    unfolding init_cent
    init_cent-AllFit cs false ls a f = a
    init_cent-AllFit cs true ls a f = AllFit-append cs _ ls a (rw (add_to_cent-qname _) f)

    -- A record of a proper name makes no entry for any other.
    pub rr_to_cache-AllFit :
        (cs : List Cent) (ls : List Label)
        → AllFit cs
        → Fits n.oname ls
        → AllFit (rr_to_cache sz flags queryts same al n cs).1
    unfolding rr_to_cache
    rr_to_cache-AllFit cs ls a f = elim (Bool-cases (has_cent same n.oname cs)) [
      | inl z ↦ rw z (add_to_first-AllFit cs a)
      | inr z ↦ elim (Bool-cases al.grown) [
        | inl g ↦ rw (z, g) (init_cent-AllFit cs al.cent ls a f)
        | inr g ↦ rw (z, g) tt
      ]
    ]
