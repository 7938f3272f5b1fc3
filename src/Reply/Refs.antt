-- ===== src/Reply/Refs.antt =====
-- References to NS and SOA records (dns_query.c, p_exec_query, "Remember references to NS and SOA
-- records"): `c_ns` and `c_soa` count the labels of the name that the records are for.
use tor_android_service_arch.Cache.Cent.{RrSet, Cent}
use tor_android_service_arch.Cache.Store.Adding.{larger_ref}
use tor_android_service_arch.Cache.Store.Look.{getrrset}
use tor_android_service_arch.Message.Match.{domain_match}
use tor_android_service_arch.Names.{rhnsegcnt}
use tor_android_service_arch.Reply.{t_soa}
use tor_android_service_arch.Prelude.{
  ℕ, Bool, true, false, ◌&&◌, ◌||◌, not, leb, ◌==◌, if◌then◌else◌, List, [], ◌∷◌, Option, none,
  some,
}

abbrev pub t_ns : ℕ
t_ns = 2

abbrev pub qt_min : ℕ
qt_min = 251

abbrev pub has_set : Option RrSet → Bool
has_set none = false
has_set (some s) = true

-- Records of the entry's own name.
abbrev pub own_ref : Option RrSet → (scnt : ℕ) → Option ℕ → Option ℕ
own_ref none scnt ref = ref
own_ref (some s) scnt ref = some scnt

-- Records of a name of `ml` labels.
abbrev pub auth_ref : Option RrSet → (ml : ℕ) → Option ℕ → Option ℕ
auth_ref none ml ref = ref
auth_ref (some s) ml ref = larger_ref ref (some ml)

-- `lower` is `auth_serv==2`.
module _ (tolower rrlkuptab : ℕ → ℕ) (lower : Bool) where
  abbrev pub own_refs : (scnt : ℕ) → Cent → Cent
  own_refs scnt c = record c {
    c_ns = own_ref (getrrset rrlkuptab c t_ns) scnt c.c_ns;
    c_soa = own_ref (getrrset rrlkuptab c t_soa) scnt c.c_soa;
  }

  abbrev pub matched : Cent → Cent → (ml rem : ℕ) → Cent
  matched c ce ml rem =
      if (rem == 0) && (not (ml == 0) || not lower)
      then record c {
        c_ns = auth_ref (getrrset rrlkuptab ce t_ns) ml c.c_ns;
        c_soa = auth_ref (getrrset rrlkuptab ce t_soa) ml c.c_soa;
      }
      else c

  abbrev pub after_match :
      (next : Cent → Option Cent) → Cent → Cent → Option (ℕ × ℕ × ℕ) → Option Cent
  after_match next c ce none = none
  after_match next c ce (some (ml, rem, od)) = next (matched c ce ml rem)

  -- The loop over the authority section; `none` is a failed assertion of domain_match.
  unfoldable pub match_auth : Cent → List Cent → Option Cent
  unfolding domain_match
  match_auth c [] = some c
  match_auth c (ce ∷ auth) =
      after_match (λ d. match_auth d auth) c ce (domain_match tolower ce.qname c.qname)

  -- Does the entry answer the query? `n` is the number of entries.
  abbrev pub is_answer : (qtype n : ℕ) → Cent → Bool
  is_answer qtype n c =
      (leb qt_min qtype && leb qtype 255)
      || (has_set (getrrset rrlkuptab c qtype) || ((n == 1) && (c.num_rrs == 0)))

  abbrev pub with_scnt : (qtype n : ℕ) → List Cent → Cent → Option ℕ → Option Cent
  with_scnt qtype n auth c none = none
  with_scnt qtype n auth c (some scnt) =
      if is_answer qtype n (own_refs scnt c)
      then match_auth (own_refs scnt c) auth
      else some (own_refs scnt c)

  unfoldable pub remember_refs : (qtype n : ℕ) → List Cent → Cent → Option Cent
  unfolding match_auth rhnsegcnt
  remember_refs qtype n auth c = with_scnt qtype n auth c (rhnsegcnt c.qname)
