-- ===== src/Reply/Stored.antt =====
-- What is stored of a record whose data has names: the names uncompressed.
use tor_android_service_arch.Message.Decompress.Total.{Sound, decompress_name-Sound}
use tor_android_service_arch.Message.Decompress.{
  Decompressed, named, truncated, format, fault, diverged,
}
use mathlib.Core.Path.{subst}
use tor_android_service_arch.Names.Walk.{walk-encode}
use tor_android_service_arch.Names.Normal.{length-drop}
use tor_android_service_arch.Names.Wire.{Label, encode, IsName}
use tor_android_service_arch.Names.{Bytes, dnsnamebufsize}
use tor_android_service_arch.Prelude.{
  ℕ, ◌+◌, ◌≡◌, refl, ap, ◌∙◌, arith, Bool, Bool-cases, inl, inr, ltb, leb, ◌==◌, List, [], ◌∷◌,
  ◌++◌, append_assoc, some, length, take, drop, length-take_short,
}
use tor_android_service_arch.Reply.Rdata.{
  Cursor, Reading, at, refused, faulted, then_read, after_name, no_junk, copy_bytes, copy_name,
  bytes_name, two_names, default_case, read_layout, rdata_of, Layout, fixed, with_name, with_names,
  with_bitmap, with_strings, with_gateway, as_is, with_plain_name, layout_of,
}
use tor_android_service_arch.Reply.{soa_minimum, minimum_at, skip_maintainer, getint32, t_soa}

-- The data, where it is read.
abbrev pub Gives : (Bytes → Type 0) → Reading → Type 0
Gives P (at c) = P c.db
Gives P (refused rc) = Unit
Gives P faulted = Unit

-- Bytes, names and bytes, one behind the other.
abbrev pub Stored : Layout → Bytes → Type 0
Stored (fixed k) d = length d ≡ k
Stored (with_name k) d =
    (h : Bytes) × (ls : List Label) × (length h ≡ k) × IsName ls × (d ≡ h ++ encode ls)
Stored (with_names k m) d =
    (h : Bytes) × (ls : List Label) × (ms : List Label) × (t : Bytes) × (length h ≡ k)
    × IsName ls
    × IsName ms
    × (length t ≡ m)
    × (d ≡ h ++ (encode ls ++ (encode ms ++ t)))
Stored _ d = Unit

then_read-Gives :
    (P Q : Bytes → Type 0) (r : Reading) (f : Cursor → Reading)
    → Gives P r
    → ((c : Cursor) → P c.db → Gives Q (f c))
    → Gives Q (then_read r f)
then_read-Gives P Q (at c) f h k = k c h
then_read-Gives P Q (refused rc) f h k = tt
then_read-Gives P Q faulted f h k = tt

module _ (msg : Bytes) where
  copy_bytes-Gives :
      (Q : Bytes → Type 0) (size n : ℕ) (c : Cursor)
      → ((bs : Bytes) → length bs ≡ n → Q (c.db ++ bs))
      → Gives Q (copy_bytes msg size n c)
  copy_bytes-Gives Q size n c k = elim (Bool-cases (ltb c.blcnt n)) [
    | inl z ↦ rw z tt
    | inr z ↦ elim (Bool-cases (leb (c.bptr + n) (length msg))) [
      | inl y ↦ elim (Bool-cases (leb (length c.db + n) size)) [
        | inl x ↦
            rw (z, y, x)
              (k (take n (drop c.bptr msg))
                (length-take_short n (drop c.bptr msg) (ground (arith, y, length-drop c.bptr msg))))
        | inr x ↦ rw (z, y, x) tt
      ]
      | inr y ↦ rw (z, y) tt
    ]
  ]

  after_name-Gives :
      (Q : Bytes → Type 0) (size : ℕ) (c : Cursor) (r : Decompressed)
      → Sound msg c.bptr c.blcnt r
      → ((ls : List Label) → IsName ls → Q (c.db ++ encode ls))
      → Gives Q (after_name size c r)
  after_name-Gives Q size c (named used left nm) (hops, taken, few, r) k =
      elim (Bool-cases (leb (length c.db + dnsnamebufsize) size)) [
        | inl z ↦ let e : nm ≡ encode r.labels = r.written in rw (z, e) (k r.labels r.is_name)
        | inr z ↦ rw z tt
      ]
  after_name-Gives Q size c truncated s k = tt
  after_name-Gives Q size c (format r) s k = tt
  after_name-Gives Q size c fault s k = tt
  after_name-Gives Q size c diverged s k = tt

  copy_name-Gives :
      (Q : Bytes → Type 0) (size : ℕ) (c : Cursor)
      → ((ls : List Label) → IsName ls → Q (c.db ++ encode ls))
      → Gives Q (copy_name msg size c)
  unfolding copy_name
  copy_name-Gives Q size c k =
      after_name-Gives Q size c _ (decompress_name-Sound msg c.bptr c.blcnt) k

  no_junk-Gives : (Q : Bytes → Type 0) (c : Cursor) → Q c.db → Gives Q (no_junk c)
  no_junk-Gives Q c h = elim (Bool-cases (c.blcnt == 0)) [ inl z ↦ rw z h | inr z ↦ rw z tt ]

  bytes_name-Gives :
      (n ptr m : ℕ)
      → Gives (Stored (with_name n)) (bytes_name msg n (record { bptr = ptr; blcnt = m; db = [] }))
  bytes_name-Gives n ptr m =
      let P = Stored (with_name n) in
      let c0 : Cursor = record { bptr = ptr; blcnt = m; db = [] } in
      then_read-Gives (λ d. length d ≡ n) P _ _
        (copy_bytes-Gives (λ d. length d ≡ n) (n + dnsnamebufsize) n c0 (λ bs e. e))
        (λ c h.
          then_read-Gives P P _ no_junk
            (copy_name-Gives P (n + dnsnamebufsize) c (λ ls i. (c.db, ls, h, i, refl)))
            (no_junk-Gives P))

  -- Bytes and two names.
  abbrev TwoNames : (n : ℕ) → Bytes → Type 0
  TwoNames n d =
      (h : Bytes) × (ls : List Label) × (ms : List Label) × (length h ≡ n)
      × IsName ls
      × IsName ms
      × (d ≡ (h ++ encode ls) ++ encode ms)

  two_names-Gives :
      (n m ptr k : ℕ)
      → Gives
          (Stored (with_names n m))
          (two_names msg n m (record { bptr = ptr; blcnt = k; db = [] }))
  two_names-Gives n m ptr k =
      let size = n + dnsnamebufsize + dnsnamebufsize + m in
      let c0 : Cursor = record { bptr = ptr; blcnt = k; db = [] } in
      let P = Stored (with_name n) in
      let Q = Stored (with_names n m) in
      then_read-Gives (λ d. length d ≡ n) Q _ _
        (copy_bytes-Gives (λ d. length d ≡ n) size n c0 (λ bs e. e))
        (λ c h.
          then_read-Gives P Q _ _ (copy_name-Gives P size c (λ ls i. (c.db, ls, h, i, refl)))
            (λ d (b, ls, e, i, q).
              then_read-Gives (TwoNames n) Q _ _
                (copy_name-Gives (TwoNames n) size d (λ ms j. (b, ls, ms, e, i, j, rw q refl)))
                (λ f (b, ls, ms, e, i, j, q).
                  then_read-Gives Q Q _ no_junk
                    (copy_bytes-Gives Q size m f
                      (λ t l. (b, ls, ms, t, e, i, j, l, rw (q, append_assoc, append_assoc) refl)))
                    (no_junk-Gives Q))))

  default_case-Gives : (ptr n : ℕ) → Gives (λ d. length d ≡ n) (default_case msg ptr n)
  default_case-Gives ptr n = elim (Bool-cases (leb (ptr + n) (length msg))) [
    | inl z ↦
        rw (default_case, z)
          (length-take_short n (drop ptr msg) (ground (arith, z, length-drop ptr msg)))
    | inr z ↦ rw (default_case, z) tt
  ]

  fixed-Gives :
      (al : Bool) (ptr n k : ℕ) → Gives (Stored (fixed k)) (read_layout msg al ptr n (fixed k))
  fixed-Gives al ptr n k = elim (Bool-cases (n == k)) [
    | inl z ↦
        let e : n ≡ k = ground (arith, z) in
        rw z (
          subst (λ j. Gives (λ d. length d ≡ j) (default_case msg ptr n)) e
            (default_case-Gives ptr n))
    | inr z ↦ rw z tt
  ]

any-Gives : (r : Reading) → Gives (λ d. Unit) r
any-Gives (at c) = tt
any-Gives (refused rc) = tt
any-Gives faulted = tt

read_layout-Gives :
    (msg : Bytes) (al : Bool) (ptr n : ℕ) (l : Layout)
    → Gives (Stored l) (read_layout msg al ptr n l)
read_layout-Gives msg al ptr n (fixed k) = fixed-Gives msg al ptr n k
read_layout-Gives msg al ptr n (with_name k) = bytes_name-Gives msg k ptr n
read_layout-Gives msg al ptr n (with_names k m) = two_names-Gives msg k m ptr n
read_layout-Gives msg al ptr n with_bitmap = any-Gives _
read_layout-Gives msg al ptr n with_strings = any-Gives _
read_layout-Gives msg al ptr n with_gateway = any-Gives _
read_layout-Gives msg al ptr n as_is = any-Gives _
read_layout-Gives msg al ptr n (with_plain_name k) = any-Gives _

-- What is stored of a record of a type of fixed length has that length; of a record with one or two
-- names, it is the bytes before them, the names uncompressed, and the bytes behind them, as
-- many as the type has.
pub rdata_of-Shaped :
    (msg : Bytes) (al : Bool) (ptr rdlength type : ℕ)
    → Gives (Stored (layout_of type)) (rdata_of msg al ptr rdlength type)
unfolding rdata_of
rdata_of-Shaped msg al ptr rdlength type = read_layout-Gives msg al ptr rdlength (layout_of type)

four_bytes : (t : Bytes) → length t ≡ 4 → (v : ℕ) × (getint32 t ≡ some v)
four_bytes [] e = absurd (omega (arith, e))
four_bytes (a ∷ []) e = absurd (omega (arith, e))
four_bytes (a ∷ b ∷ []) e = absurd (omega (arith, e))
four_bytes (a ∷ b ∷ c ∷ []) e = absurd (omega (arith, e))
four_bytes (a ∷ b ∷ c ∷ d ∷ t) e = (_, refl)

-- The data of a set that `soa_minimum` can read.
abbrev pub HasMinimum : Bytes → Type 0
HasMinimum d = (v : ℕ) × (soa_minimum d ≡ some v)

soa_minimum-encode :
    (ls ms : List Label) (t : Bytes) (v : ℕ)
    → IsName ls
    → IsName ms
    → getint32 (drop 16 t) ≡ some v
    → soa_minimum (encode ls ++ (encode ms ++ t)) ≡ some v
unfolding soa_minimum
soa_minimum-encode ls ms t v i j e =
    let (_, _, skip, _) = walk-encode ls (encode ms ++ t) i in
    let (_, _, skip', _) = walk-encode ms t j in ap skip_maintainer skip ∙ (ap minimum_at skip' ∙ e)

Stored-HasMinimum : (d : Bytes) → Stored (with_names 0 20) d → HasMinimum d
Stored-HasMinimum d ([], ls, ms, t, e, i, j, l, q) =
    let (v, f) = four_bytes (drop 16 t) (omega (arith, l, length-drop 16 t)) in
    (v, ap soa_minimum q ∙ soa_minimum-encode ls ms t v i j f)
Stored-HasMinimum d (b ∷ bs, ls, ms, t, e, i, j, l, q) = absurd (omega (arith, e))

Gives-map : (P Q : Bytes → Type 0) (r : Reading) → ((d : Bytes) → P d → Q d) → Gives P r → Gives Q r
Gives-map P Q (at c) f h = f c.db h
Gives-map P Q (refused rc) f h = tt
Gives-map P Q faulted f h = tt

-- Whatever a server sends for an SOA record, `soa_minimum` reads the data that `rrs2cent` stores of it
-- without a read behind them.
pub soa_minimum-rdata_of :
    (msg : Bytes) (al : Bool) (ptr rdlength : ℕ)
    → Gives HasMinimum (rdata_of msg al ptr rdlength t_soa)
soa_minimum-rdata_of msg al ptr rdlength =
    let soa : layout_of t_soa ≡ with_names 0 20 = unfold layout_of in refl in
    Gives-map (Stored (with_names 0 20)) HasMinimum _ Stored-HasMinimum (
      subst (λ l. Gives (Stored l) (rdata_of msg al ptr rdlength t_soa)) soa
        (rdata_of-Shaped msg al ptr rdlength t_soa))
