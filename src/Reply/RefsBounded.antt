-- ===== src/Reply/RefsBounded.antt =====
-- The references stay within the name that they belong to.
use tor_android_service_arch.Cache.Cent.{RrSet, Cent}
use tor_android_service_arch.Message.Match.{domain_match}
use tor_android_service_arch.Names.Wire.{Label}
use tor_android_service_arch.Names.{Bytes}
use tor_android_service_arch.Prelude.{
  ℕ, ◌≤◌, ◌≡◌, Bool, ◌&&◌, ◌||◌, not, ◌==◌, if◌then◌else◌, List, [], ◌∷◌, Option, none, some,
  length,
}
use tor_android_service_arch.Cache.Store.Adding.{larger_ref}
use tor_android_service_arch.Message.Fits.{Fits}
use tor_android_service_arch.Cache.Store.Look.{getrrset}
use tor_android_service_arch.Reply.Refs.{own_ref, has_set, is_answer}

abbrev pub Within : ℕ → Option ℕ → Type 0
Within n none = Unit
Within n (some k) = k ≤ n

-- Both references are to labels of the name.
pub record RefsWithin (n : ℕ) (c : Cent) : Type 0 where
  pub ns : Within n c.c_ns
  pub soa : Within n c.c_soa

module _ (tolower rrlkuptab : ℕ → ℕ) (lower : Bool) where
  -- The reference that a set of an authority entry, whose name matches so, is worth.
  abbrev pub due_of : Option RrSet → Option (ℕ × ℕ × ℕ) → Option ℕ
  due_of o none = none
  due_of o (some (ml, rem, od)) =
      if (rem == 0) && (not (ml == 0) || not lower)
      then (if has_set o then some ml else none)
      else none

  -- The largest reference to records of a type, for a name.
  abbrev pub largest : (type : ℕ) → Bytes → Option ℕ → List Cent → Option ℕ
  largest type qname r [] = r
  largest type qname r (ce ∷ auth) =
      largest type qname
        (larger_ref r (due_of (getrrset rrlkuptab ce type) (domain_match tolower ce.qname qname)))
        auth

  -- An entry with other references.
  abbrev pub with_refs : Cent → (ns soa : Option ℕ) → Cent
  with_refs c ns soa = record c { c_ns = ns; c_soa = soa }

  -- The authority entries that count: all of them, or none.
  abbrev pub counted : Bool → List Cent → List Cent
  counted b auth = if b then auth else []

  abbrev pub noted : (type n qtype count : ℕ) → Option ℕ → Cent → List Cent → Option ℕ
  noted type n qtype count r c auth =
      largest type c.qname (own_ref (getrrset rrlkuptab c type) n r)
        (counted (is_answer tolower rrlkuptab lower qtype count c) auth)

  module _ (ds : List Label) where
    -- What is left of an entry: the entry with these references, within its name.
    abbrev pub RefsKept : Cent → (ns soa : Option ℕ) → Option Cent → Type 0
    RefsKept c ns soa none = ⊥
    RefsKept c ns soa (some c') = RefsWithin (length ds) c' × (c' ≡ with_refs c ns soa)
