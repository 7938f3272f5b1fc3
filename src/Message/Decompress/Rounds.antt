-- ===== src/Message/Decompress/Rounds.antt =====
-- One round of each loop of `decompress_name`, on any bytes.
use tor_android_service_arch.Names.Wire.{Label}
use tor_android_service_arch.Names.{Bytes, dnsnamebufsize}
use tor_android_service_arch.Message.Decompress.{
  Reason, name_outside_msg, unsupported_lbl_bits, offset_outside_msg, name_buf_full, too_many_hops,
  Decompressed, named, truncated, format, copy_label, Appended, appended, failed, append_label,
  offset, jumped, plain_labels,
}
use tor_android_service_arch.Message.Decompress.Denotes.{Holds}
use tor_android_service_arch.Prelude.{
  ℕ, zero, suc, ◌+◌, ◌-◌, ◌≤◌, ◌<◌, ◌≡◌, inl, inr, refl, arith, ltb, leb, ◌==◌, Bool-cases, [], ◌∷◌,
  ◌++◌, some, append_assoc, append-nil, length, length-append, get_elem?,
}

get_elem?-some : (msg : Bytes) (p : ℕ) → p < length msg → (b : ℕ) × (get_elem? msg p ≡ some b)
get_elem?-some [] p h = absurd (omega arith)
get_elem?-some (x ∷ msg) zero h = (x, refl)
get_elem?-some (x ∷ msg) (suc p) h = get_elem?-some msg p (omega arith)

copy_label_total :
    (msg : Bytes) (lb p : ℕ) (tgt : Bytes)
    → p + lb ≤ length msg
    → length tgt + lb ≤ dnsnamebufsize
    → (l : Label) × (copy_label msg lb p tgt ≡ some (tgt ++ l)) × (length l ≡ lb) × Holds msg p l
unfolding copy_label
copy_label_total msg zero p tgt h k = ([], rw append-nil, refl, tt)
copy_label_total msg (suc lb) p tgt h k =
    let (b, e) = get_elem?-some msg p (omega arith) in
    let parts = length-append tgt (b ∷ []) in
    let (l, run, w, held) =
      copy_label_total msg lb (p + 1) (tgt ++ b ∷ []) (omega arith) (omega arith) in
    (b ∷ l, ground (arith, append_assoc tgt (b ∷ []) l), omega arith, (e, held))

-- What `append_label` has done.
Appends : Bytes → ℕ → ℕ → Bytes → Appended → Type 0
Appends msg p lb tgt (failed d) = (why : Reason) × (d ≡ format why)
Appends msg p lb tgt (appended t) =
    (l : Label) × (t ≡ tgt ++ l)
    × (length l ≡ lb)
    × Holds msg p l
    × (p + lb < length msg)
    × (length tgt + lb < dnsnamebufsize)

append_label-Appends :
    (msg : Bytes) (p lb : ℕ) (tgt : Bytes) → Appends msg p lb tgt (append_label msg p lb tgt)
unfolding append_label Appends
append_label-Appends msg p lb tgt = elim (Bool-cases (leb (length msg) (p + lb))) [
  | inl out ↦ rw out (name_outside_msg, refl)
  | inr inside ↦ rw inside (elim (Bool-cases (ltb (dnsnamebufsize - 1) (length tgt + lb))) [
    | inl full ↦ rw full (name_buf_full, refl)
    | inr room ↦ rw room (
        let (l, run, w, held) = copy_label_total msg lb p tgt (ground arith) (ground arith) in
        rw run (l, refl, w, held, ground arith, ground arith))
  ])
]

-- One round of a loop, by what it comes to: it stops with an error, it ends with the root, it takes a
-- label, or it follows an offset; the last two with the loop's call for the next round. `Left lb`
-- and `Free` are what the round has checked of the bytes and the hops left.
pub data Round (msg : Bytes) (p : ℕ) (tgt : Bytes) (Left : ℕ → Type 0) (Free : Type 0)
    (done : Bytes → Decompressed) (on_label : ℕ → Bytes → Decompressed)
    (on_pointer : ℕ → Decompressed) (r : Decompressed) : Type 0 where
  stop : (why : Reason) → r ≡ format why → Round msg p tgt Left Free done on_label on_pointer r
  short : r ≡ truncated → Round msg p tgt Left Free done on_label on_pointer r
  end :
      get_elem? msg p ≡ some 0
      → r ≡ done (tgt ++ 0 ∷ [])
      → Round msg p tgt Left Free done on_label on_pointer r
  take_label :
      (lb : ℕ) (l : Label)
      → get_elem? msg p ≡ some lb
      → 1 ≤ lb
      → lb ≤ 0x3f
      → Left lb
      → length l ≡ lb
      → Holds msg (p + 1) l
      → p + 1 + lb < length msg
      → length tgt + 1 + lb < dnsnamebufsize
      → r ≡ on_label lb (tgt ++ (lb ∷ l))
      → Round msg p tgt Left Free done on_label on_pointer r
  jump :
      (hi lo : ℕ)
      → get_elem? msg p ≡ some hi
      → 0xc0 ≤ hi
      → get_elem? msg (p + 1) ≡ some lo
      → offset hi lo < length msg
      → Free
      → r ≡ on_pointer (offset hi lo)
      → Round msg p tgt Left Free done on_label on_pointer r

module _ (fuel : ℕ) (msg : Bytes) (used left hops p : ℕ) (tgt : Bytes) where
  abbrev pub JumpedRound : Type 0
  JumpedRound =
      Round msg p tgt (λ lb. Unit) (hops < 255) (named used left)
        (λ lb t. jumped fuel msg used left hops (p + 1 + lb) t)
        (λ o. jumped fuel msg used left (hops + 1) o tgt)
        (jumped (suc fuel) msg used left hops p tgt)

  jumped_label :
      (lb : ℕ)
      → get_elem? msg p ≡ some lb
      → 1 ≤ lb
      → lb ≤ 0x3f
      → length tgt < dnsnamebufsize
      → (a : Appended) → append_label msg (p + 1) lb (tgt ++ lb ∷ []) ≡ a
      → Appends msg (p + 1) lb (tgt ++ lb ∷ []) a
      → JumpedRound
  unfolding jumped Appends
  jumped_label lb e pos low room (failed d) run (why, is) = stop why (ground arith)
  jumped_label lb e pos low room (appended t) run (l, is, w, held, inside, fits) =
      take_label lb l e pos low tt w held (omega arith) (omega (arith, length-append tgt (lb ∷ [])))
        (ground (arith, append_assoc tgt (lb ∷ []) l))

  jumped_offset :
      (hi : ℕ)
      → get_elem? msg p ≡ some hi
      → 0xc0 ≤ hi
      → p + 1 < length msg
      → hops < 255
      → JumpedRound
  unfolding jumped
  jumped_offset hi e big inside few =
      let (lo, e') = get_elem?-some msg (p + 1) inside in
      elim (Bool-cases (leb (length msg) (offset hi lo))) [
        | inl out ↦ stop offset_outside_msg (ground arith)
        | inr there ↦ jump hi lo e big e' (ground arith) few (ground arith)
      ]

  pub jumped_round : p < length msg → length tgt < dnsnamebufsize → JumpedRound
  unfolding jumped
  jumped_round inside room =
      let (lb, e) = get_elem?-some msg p inside in
      elim (Bool-cases (ltb 0x3f lb)) [
        | inr low ↦ elim (Bool-cases (lb == 0)) [
          | inl z ↦ end (ground arith) (ground arith)
          | inr pos ↦
              jumped_label lb e (ground arith) (ground arith) room _ refl
                (append_label-Appends msg (p + 1) lb (tgt ++ lb ∷ []))
        ]
        | inl big ↦ elim (Bool-cases (ltb lb 0xc0)) [
          | inl odd ↦ stop unsupported_lbl_bits (ground arith)
          | inr high ↦ elim (Bool-cases (leb (length msg) (p + 1))) [
            | inl out ↦ stop name_outside_msg (ground arith)
            | inr next ↦ elim (Bool-cases (ltb 255 (hops + 1))) [
              | inl many ↦ stop too_many_hops (ground arith)
              | inr few ↦ jumped_offset lb e (ground arith) (ground arith) (ground arith)
            ]
          ]
        ]
      ]

module _ (fuel : ℕ) (msg : Bytes) (used newsz p : ℕ) (tgt : Bytes) where
  abbrev pub PlainRound : Type 0
  PlainRound =
      Round msg p tgt (λ lb. lb < newsz) (1 ≤ newsz) (named (used + 1) newsz)
        (λ lb t. plain_labels fuel msg (used + 1 + lb) (newsz - lb) (p + 1 + lb) t)
        (λ o. jumped fuel msg (used + 2) (newsz - 1) 1 o tgt)
        (plain_labels (suc fuel) msg used (suc newsz) p tgt)

  plain_label :
      (lb : ℕ)
      → get_elem? msg p ≡ some lb
      → 1 ≤ lb
      → lb ≤ 0x3f
      → lb < newsz
      → length tgt < dnsnamebufsize
      → (a : Appended) → append_label msg (p + 1) lb (tgt ++ lb ∷ []) ≡ a
      → Appends msg (p + 1) lb (tgt ++ lb ∷ []) a
      → PlainRound
  unfolding plain_labels Appends
  plain_label lb e pos low left room (failed d) run (why, is) = stop why (ground arith)
  plain_label lb e pos low left room (appended t) run (l, is, w, held, inside, fits) =
      take_label lb l e pos low left w held (omega arith)
        (omega (arith, length-append tgt (lb ∷ []))) (ground (arith, append_assoc tgt (lb ∷ []) l))

  plain_offset :
      (hi : ℕ) → get_elem? msg p ≡ some hi → 0xc0 ≤ hi → p + 1 < length msg → 1 ≤ newsz → PlainRound
  unfolding plain_labels
  plain_offset hi e big inside left =
      let (lo, e') = get_elem?-some msg (p + 1) inside in
      elim (Bool-cases (leb (length msg) (offset hi lo))) [
        | inl out ↦ stop offset_outside_msg (ground arith)
        | inr there ↦ jump hi lo e big e' (ground arith) left (ground arith)
      ]

  pub plain_round : p < length msg → length tgt < dnsnamebufsize → PlainRound
  unfolding plain_labels
  plain_round inside room =
      let (lb, e) = get_elem?-some msg p inside in
      elim (Bool-cases (ltb 0x3f lb)) [
        | inr low ↦ elim (Bool-cases (lb == 0)) [
          | inl z ↦ end (ground arith) (ground arith)
          | inr pos ↦ elim (Bool-cases (leb newsz lb)) [
            | inl few ↦ short (ground arith)
            | inr left ↦
                plain_label lb e (ground arith) (ground arith) (ground arith) room _ refl
                  (append_label-Appends msg (p + 1) lb (tgt ++ lb ∷ []))
          ]
        ]
        | inl big ↦ elim (Bool-cases (ltb lb 0xc0)) [
          | inl odd ↦ stop unsupported_lbl_bits (ground arith)
          | inr high ↦ elim (Bool-cases (newsz == 0)) [
            | inl z ↦ short (ground arith)
            | inr left ↦ elim (Bool-cases (leb (length msg) (p + 1))) [
              | inl out ↦ stop name_outside_msg (ground arith)
              | inr next ↦ plain_offset lb e (ground arith) (ground arith) (ground arith)
            ]
          ]
        ]
      ]
