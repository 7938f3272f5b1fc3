-- ===== src/Cache/Cent/Copy.antt =====
-- Copies of entries and record sets (cache.c, `copy_rr`, `copy_rrset`, `copy_cent`). The outcomes
-- of the calls of `malloc` are a list, in order, which is followed by successes; `none` is the
-- result NULL, for which the code has freed what it had copied.
use mathlib.Core.Path.{subst}
use tor_android_service_arch.Cache.Cent.{neg, rr, RrSet, Slots, Body, Cent}
use tor_android_service_arch.Names.{Bytes}
use tor_android_service_arch.Prelude.{
  ◌≡◌, refl, Bool, true, false, List, [], ◌∷◌, Option, none, some,
}

infixl 10 ◌>>=◌
abbrev pub ◌>>=◌ {ℓ κ} : {A : Type ℓ} {B : Type κ} → Option A → (A → Option B) → Option B
none >>= k = none
some a >>= k = k a

abbrev pub malloc : List Bool → Option (List Bool)
malloc [] = some []
malloc (true ∷ os) = some os
malloc (false ∷ os) = none

-- `copy_rr` for each record of a set
unfoldable pub copy_rrs : List Bool → List Bytes → Option (List Bytes × List Bool)
copy_rrs os [] = some ([], os)
copy_rrs os (r ∷ rrs) = do os' ← malloc os; (rest, os'') ← copy_rrs os' rrs; some (r ∷ rest, os'')

unfoldable pub copy_rrset : List Bool → RrSet → Option (RrSet × List Bool)
unfolding copy_rrs
copy_rrset os s = do
  os' ← malloc os
  (rrs, os'') ← copy_rrs os' s.rrs
  some (record s { lent = none; rrs = rrs }, os'')

-- The loop of `copy_cent` over an array.
unfoldable pub copy_slots : List Bool → Slots → Option (Slots × List Bool)
unfolding copy_rrset
copy_slots os [] = some ([], os)
copy_slots os (none ∷ ss) = do (rest, os') ← copy_slots os ss; some (none ∷ rest, os')
copy_slots os (some s ∷ ss) = do
  (s', os') ← copy_rrset os s
  (rest, os'') ← copy_slots os' ss
  some (some s' ∷ rest, os'')

-- The second array is allocated before the sets are copied.
unfoldable pub copy_body : List Bool → Body → Option (Body × List Bool)
unfolding copy_slots
copy_body os (neg lent ttl ts) = some (neg none ttl ts, os)
copy_body os (rr mu none) = do (mu', os') ← copy_slots os mu; some (rr mu' none, os')
copy_body os (rr mu (some ext)) = do
  os' ← malloc os
  (mu', os'') ← copy_slots os' mu
  (ext', os3) ← copy_slots os'' ext
  some (rr mu' (some ext'), os3)

-- The first two allocations are for the entry and its name.
unfoldable pub copy_cent : List Bool → Cent → Option (Cent × List Bool)
unfolding copy_body
copy_cent os c = do
  os' ← malloc os
  os'' ← malloc os'
  (b, os3) ← copy_body os'' c.body
  some (record c { body = b }, os3)

-- An entry that no list points to.
abbrev pub forget_set : RrSet → RrSet
forget_set s = record s { lent = none }

abbrev pub forget_slots : Slots → Slots
forget_slots [] = []
forget_slots (none ∷ ss) = none ∷ forget_slots ss
forget_slots (some s ∷ ss) = some (forget_set s) ∷ forget_slots ss

abbrev pub forget_body : Body → Body
forget_body (neg lent ttl ts) = neg none ttl ts
forget_body (rr mu none) = rr (forget_slots mu) none
forget_body (rr mu (some ext)) = rr (forget_slots mu) (some (forget_slots ext))

abbrev pub forget : Cent → Cent
forget c = record c { body = forget_body c.body }

-- A result that, where there is one, is `a`.
abbrev Gives {ℓ} : {A : Type ℓ} → A → Option (A × List Bool) → Type ℓ
Gives a none = Unit
Gives a (some (b, os)) = b ≡ a

Gives-bind {ℓ κ} :
    {A : Type ℓ} {B : Type κ} (m : Option (A × List Bool)) (a : A)
    (k : A × List Bool → Option (B × List Bool)) (b : B)
    → Gives a m
    → ((os : List Bool) → Gives b (k (a, os)))
    → Gives b (m >>= k)
Gives-bind none a k b g h = tt
Gives-bind (some (x, os)) a k b g h = rw g (h os)

Gives-malloc {κ} :
    {B : Type κ} (os : List Bool) (k : List Bool → Option (B × List Bool)) (b : B)
    → ((os' : List Bool) → Gives b (k os'))
    → Gives b (malloc os >>= k)
Gives-malloc [] k b h = h []
Gives-malloc (true ∷ os) k b h = h os
Gives-malloc (false ∷ os) k b h = tt

copy_rrs-Gives : (os : List Bool) (rrs : List Bytes) → Gives rrs (copy_rrs os rrs)
unfolding copy_rrs
copy_rrs-Gives os [] = refl
copy_rrs-Gives os (r ∷ rrs) =
    Gives-malloc os _ _
      (λ os'. Gives-bind (copy_rrs os' rrs) rrs _ _ (copy_rrs-Gives os' rrs) (λ o. refl))

copy_rrset-Gives : (os : List Bool) (s : RrSet) → Gives (forget_set s) (copy_rrset os s)
unfolding copy_rrset
copy_rrset-Gives os s =
    Gives-malloc os _ _
      (λ os'. Gives-bind (copy_rrs os' s.rrs) s.rrs _ _ (copy_rrs-Gives os' s.rrs) (λ o. refl))

copy_slots-Gives : (os : List Bool) (ss : Slots) → Gives (forget_slots ss) (copy_slots os ss)
unfolding copy_slots
copy_slots-Gives os [] = refl
copy_slots-Gives os (none ∷ ss) =
    Gives-bind (copy_slots os ss) (forget_slots ss) _ _ (copy_slots-Gives os ss) (λ o. refl)
copy_slots-Gives os (some s ∷ ss) =
    Gives-bind (copy_rrset os s) (forget_set s) _ _ (copy_rrset-Gives os s)
      (λ o. Gives-bind (copy_slots o ss) (forget_slots ss) _ _ (copy_slots-Gives o ss) (λ o'. refl))

copy_body-Gives : (os : List Bool) (b : Body) → Gives (forget_body b) (copy_body os b)
unfolding copy_body
copy_body-Gives os (neg lent ttl ts) = refl
copy_body-Gives os (rr mu none) =
    Gives-bind (copy_slots os mu) (forget_slots mu) _ _ (copy_slots-Gives os mu) (λ o. refl)
copy_body-Gives os (rr mu (some ext)) = Gives-malloc os _ _ (λ o.
    Gives-bind (copy_slots o mu) (forget_slots mu) _ _ (copy_slots-Gives o mu) (λ o'.
      Gives-bind (copy_slots o' ext) (forget_slots ext) _ _ (copy_slots-Gives o' ext)
        (λ o''. refl)))

-- Where `copy_cent` returns an entry, it is the original's copy, but for the pointers to list
-- entries, which are NULL.
pub copy_cent-forget :
    (os os' : List Bool) (c c' : Cent) → copy_cent os c ≡ some (c', os') → c' ≡ forget c
unfolding copy_cent
copy_cent-forget os os' c c' e = subst (Gives (forget c)) e (
    Gives-malloc os _ _ (λ o. Gives-malloc o _ _ (λ o'.
      Gives-bind (copy_body o' c.body) (forget_body c.body) _ _ (copy_body-Gives o' c.body)
        (λ o''. refl))))

copy_rrs-total : (rrs : List Bytes) → copy_rrs [] rrs ≡ some (rrs, [])
unfolding copy_rrs
copy_rrs-total [] = refl
copy_rrs-total (r ∷ rrs) = rw (copy_rrs-total rrs) refl

copy_slots-total : (ss : Slots) → copy_slots [] ss ≡ some (forget_slots ss, [])
unfolding copy_slots copy_rrset
copy_slots-total [] = refl
copy_slots-total (none ∷ ss) = rw (copy_slots-total ss) refl
copy_slots-total (some s ∷ ss) = rw (copy_rrs-total s.rrs, copy_slots-total ss) refl

copy_body-total : (b : Body) → copy_body [] b ≡ some (forget_body b, [])
unfolding copy_body
copy_body-total (neg lent ttl ts) = refl
copy_body-total (rr mu none) = rw (copy_slots-total mu) refl
copy_body-total (rr mu (some ext)) = rw (copy_slots-total mu, copy_slots-total ext) refl

-- Where memory suffices, `copy_cent` returns an entry: the original without its pointers to list
-- entries.
pub copy_cent-total : (c : Cent) → copy_cent [] c ≡ some (forget c, [])
unfolding copy_cent
copy_cent-total c = rw (copy_body-total c.body) refl
