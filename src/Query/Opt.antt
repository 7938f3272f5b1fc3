-- ===== src/Query/Opt.antt =====
-- The OPT pseudo record of an answer (dns_answer.c, add_opt_pseudo_rr, remove_opt_pseudo_rr), and the
-- time to live in an answer (ans_ttl). An answer is the bytes from its header on, of which there are
-- `*sz`, and `*allocsz`; `allocated` is the outcome of `realloc`.
use tor_android_service_arch.Cache.Cent.{RrSet}
use tor_android_service_arch.Names.Wire.{take-append}
use tor_android_service_arch.Names.{Bytes}
use tor_android_service_arch.Prelude.{
  ℕ, zero, suc, ◌+◌, ◌-◌, ◌*◌, ◌/◌, ◌%◌, ◌≤◌, ◌<◌, ◌≡◌, refl, sym, ap, ◌∙◌, arith, Bool, true,
  false, ◌&&◌, not, ltb, leb, ◌==◌, if◌then◌else◌, [], ◌∷◌, ◌++◌, Option, none, some, length,
  length-append, take, get_elem?, set, Bool-cases, inl, inr,
}
use tor_android_service_arch.Query.{
  t_opt, sizeof_dns_hdr, sizeof_rr_hdr, count_at, byte_or, getint16,
}

abbrev pub sizeof_opt_pseudo_rr : ℕ
sizeof_opt_pseudo_rr = 1 + sizeof_rr_hdr

abbrev pub dnsmsghdroffset : ℕ
dnsmsghdroffset = 2

-- `ALLOCCHUNKSIZEMASK + 1`
abbrev pub alloc_chunk : ℕ
alloc_chunk = 128

pub record Answer : Type 0 where
  pub msg : Bytes
  pub allocsz : ℕ

-- PUTINT16
abbrev pub int16 : ℕ → Bytes
int16 n = n / 256 % 256 ∷ n % 256 ∷ []

-- A count of the header, in network order.
abbrev pub set_count : Bytes → (i n : ℕ) → Bytes
set_count msg i n = set (set msg i (n / 256 % 256)) (i + 1) (n % 256)

abbrev pub opt_pseudo_rr : (udpsize rcode ednsver zflags : ℕ) → Bytes
opt_pseudo_rr udpsize rcode ednsver zflags =
    (0 ∷ int16 t_opt)
    ++ int16 udpsize
    ++ (rcode / 16 % 256 ∷ ednsver % 256 ∷ int16 zflags)
    ++ int16 0

-- `none` is the return value 0.
unfoldable pub add_opt_pseudo_rr :
    (allocated : Bool) → Answer → (udpsize rcode ednsver zflags : ℕ) → Option Answer
add_opt_pseudo_rr allocated ans udpsize rcode ednsver zflags =
    let newsz = dnsmsghdroffset + length ans.msg + sizeof_opt_pseudo_rr in
    let more = ltb ans.allocsz newsz in
    let newallocsz = (newsz + (alloc_chunk - 1)) / alloc_chunk * alloc_chunk in
    if more && not allocated
    then none
    else some (record {
      msg =
          set_count (ans.msg ++ opt_pseudo_rr udpsize rcode ednsver zflags) 10
            ((count_at ans.msg 10 + 1) % 0x10000);
      allocsz = if more then newallocsz else ans.allocsz;
    })

abbrev pub is_opt_at : Bytes → ℕ → Bool
is_opt_at msg p = elim (getint16 msg (p + 1)) [ none ↦ false | some type ↦ type == t_opt ]

-- The message without its last record; `none` is the return value 0.
unfoldable pub remove_opt_pseudo_rr : Bytes → Option Bytes
remove_opt_pseudo_rr msg =
    let sz = length msg - sizeof_opt_pseudo_rr in
    if not (ltb 0 (count_at msg 10) && leb (sizeof_dns_hdr + sizeof_opt_pseudo_rr) (length msg))
    then none
    else if not (byte_or sz msg == 0)
    then none
    else if not (is_opt_at msg sz)
    then none
    else some (take sz (set_count msg 10 (count_at msg 10 - 1)))

-- `queryts` and the times of a set are not negative.
unfoldable pub ans_ttl : RrSet → (queryts : ℕ) → ℕ
ans_ttl s queryts = if s.flags.local then s.ttl else s.ttl - (queryts - s.ts)

get_elem?-append :
    (xs ys : Bytes) (p k : ℕ) → p ≡ length xs + k → get_elem? (xs ++ ys) p ≡ get_elem? ys k
get_elem?-append [] ys p k e = ap (get_elem? ys) (omega (arith, e))
get_elem?-append (x ∷ xs) ys zero k e = absurd (omega (arith, e))
get_elem?-append (x ∷ xs) ys (suc p) k e = get_elem?-append xs ys p k (omega (arith, e))

counted :
    (hi lo : ℕ)
    → hi < 256
    → lo < 256
    → hi * 256 + lo < 65535
    → ((hi * 256 + lo + 1) % 0x10000 ≡ hi * 256 + lo + 1)
      × ((hi * 256 + lo + 1) / 256 % 256 * 256 + (hi * 256 + lo + 1) % 256 ≡ hi * 256 + lo + 1)
      × ((hi * 256 + lo) / 256 % 256 ≡ hi)
      × ((hi * 256 + lo) % 256 ≡ lo)
counted hi lo h k m = (omega arith, omega arith, omega arith, omega arith)

-- A record that remove_opt_pseudo_rr accepts stands at `sz`.
remove_runs :
    (msg : Bytes) (sz p q : ℕ)
    → length msg - sizeof_opt_pseudo_rr ≡ sz
    → p ≡ sz + 1
    → q ≡ sz + 1 + 1
    → (ltb 0 (count_at msg 10) && leb (sizeof_dns_hdr + sizeof_opt_pseudo_rr) (length msg)) ≡ true
    → get_elem? msg sz ≡ some 0
    → get_elem? msg p ≡ some 0
    → get_elem? msg q ≡ some t_opt
    → remove_opt_pseudo_rr msg ≡ some (take sz (set_count msg 10 (count_at msg 10 - 1)))
unfolding remove_opt_pseudo_rr
remove_runs msg sz p q e f g c z hi lo =
    let name : byte_or sz msg ≡ 0 = rw (byte_or, z) refl in
    let hi' : get_elem? msg (sz + 1) ≡ some 0 = ap (get_elem? msg) (sym f) ∙ hi in
    let lo' : get_elem? msg (sz + 1 + 1) ≡ some t_opt = ap (get_elem? msg) (sym g) ∙ lo in
    let opt : is_opt_at msg sz ≡ true = rw (is_opt_at, hi', lo') refl in
    rw (remove_opt_pseudo_rr, c, e, name, opt) refl

-- A message: the first ten bytes of its header, the count of additional records, and the rest.
module _ (h0 h1 h2 h3 h4 h5 h6 h7 h8 h9 hi lo : ℕ) (rest : Bytes) where
  abbrev pub with_count : (hi lo : ℕ) → Bytes → Bytes
  with_count hi' lo' rest' = h0 ∷ h1 ∷ h2 ∷ h3 ∷ h4 ∷ h5 ∷ h6 ∷ h7 ∷ h8 ∷ h9 ∷ hi' ∷ lo' ∷ rest'

  -- Removing finds the record that stands at the end.
  removes :
      (hi' lo' udpsize rcode ednsver zflags : ℕ)
      → 0 < hi' * 256 + lo'
      → remove_opt_pseudo_rr
          (with_count hi' lo' (rest ++ opt_pseudo_rr udpsize rcode ednsver zflags))
        ≡ some (with_count ((hi' * 256 + lo' - 1) / 256 % 256) ((hi' * 256 + lo' - 1) % 256) rest)
  unfolding remove_opt_pseudo_rr
  removes hi' lo' udpsize rcode ednsver zflags pos =
      let opt = opt_pseudo_rr udpsize rcode ednsver zflags in
      let n : length (rest ++ opt) ≡ length rest + 11 = length-append rest opt in
      let at0 = get_elem?-append rest opt (length rest) 0 (omega arith) in
      let at1 = get_elem?-append rest opt (length rest + 1) 1 (omega arith) in
      let at2 = get_elem?-append rest opt (length rest + 2) 2 (omega arith) in
      let sz =
        suc (suc (suc (suc (suc (suc (suc (suc (suc (suc (suc (suc (length rest)))))))))))) in
      let msg = with_count hi' lo' (rest ++ opt) in
      let whole : length msg - 11 ≡ sz = omega (arith, n) in
      let counted : (ltb 0 (hi' * 256 + lo') && leb 23 (length msg)) ≡ true =
        ground (arith, pos, n) in
      let p =
        suc (suc (suc (suc (suc (suc (suc (suc (suc (suc (suc (suc (length rest + 1)))))))))))) in
      let q =
        suc (suc (suc (suc (suc (suc (suc (suc (suc (suc (suc (suc (length rest + 2)))))))))))) in
      remove_runs msg sz p q whole (omega arith) (omega arith) counted at0 at1 at2
      ∙ rw (take-append rest opt) refl

  abbrev before : Bytes
  before = with_count hi lo rest

  -- What add_opt_pseudo_rr appends, remove_opt_pseudo_rr takes off again: for a message with fewer
  -- than 65535 additional records, adding succeeds where memory suffices, and removing gives the
  -- message as it was.
  pub remove_opt_pseudo_rr-add_opt_pseudo_rr :
      (allocsz udpsize rcode ednsver zflags : ℕ)
      → hi < 256
      → lo < 256
      → hi * 256 + lo < 65535
      → (ans : Answer) × (add_opt_pseudo_rr true
            (record { msg = before; allocsz = allocsz })
            udpsize
            rcode
            ednsver
            zflags
          ≡ some ans)
        × (dnsmsghdroffset + length ans.msg ≤ ans.allocsz)
        × (remove_opt_pseudo_rr ans.msg ≡ some before)
  unfolding add_opt_pseudo_rr
  remove_opt_pseudo_rr-add_opt_pseudo_rr allocsz udpsize rcode ednsver zflags h k m =
      let opt = opt_pseudo_rr udpsize rcode ednsver zflags in
      let n : length (rest ++ opt) ≡ length rest + 11 = length-append rest opt in
      let (whole, back, top, low) = counted hi lo h k m in
      let c = (hi * 256 + lo + 1) % 0x10000 in
      let pos : 0 < c / 256 % 256 * 256 + c % 256 = rw whole (omega (arith, back)) in
      let minus : c / 256 % 256 * 256 + c % 256 - 1 ≡ hi * 256 + lo =
        rw whole (omega (arith, back)) in
      let grown = with_count (c / 256 % 256) (c % 256) (rest ++ opt) in
      let newsz = 2 + length before + 11 in
      let taken =
        removes (c / 256 % 256) (c % 256) udpsize rcode ednsver zflags pos
        ∙ rw (minus, top, low) refl in
      elim (Bool-cases (ltb allocsz newsz)) [
        | inl more ↦ (
          record { msg = grown; allocsz = (newsz + 127) / 128 * 128 },
          rw (add_opt_pseudo_rr, more) refl,
          omega (arith, n),
          taken,
        )
        | inr enough ↦ (
          record { msg = grown; allocsz = allocsz },
          rw (add_opt_pseudo_rr, enough) refl,
          ground (arith, n, enough),
          taken,
        )
      ]
