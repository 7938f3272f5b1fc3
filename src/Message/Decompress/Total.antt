-- ===== src/Message/Decompress/Total.antt =====
-- The whole of `decompress_name`, on any bytes.
use tor_android_service_arch.Names.{Bytes, dnsnamebufsize}
use tor_android_service_arch.Message.Decompress.{
  Decompressed, named, fault, diverged, offset, plain_labels, enough_fuel, decompress_name,
}
use tor_android_service_arch.Message.Decompress.Rounds.{
  stop, short, end, take_label, jump, plain_round,
}
use tor_android_service_arch.Message.Decompress.Safe.{
  Reads, Reads-label, Reads-pointer, Reads-root, JumpedSound, jumped_sound,
}
use tor_android_service_arch.Message.Decompress.Complete.{decompress_name_starts}
use tor_android_service_arch.Message.Decompress.Denotes.{Holds}
use tor_android_service_arch.Prelude.{
  ℕ, zero, suc, ◌+◌, ◌-◌, ◌≤◌, ◌<◌, ◌≡◌, inl, inr, refl, arith, leb, ◌==◌, Bool-cases, [], ◌∷◌,
  ◌++◌, some, length, length-append, get_elem?,
}

-- What the first loop may return, from `p` with `newsz` bytes left after `used`.
PlainSound : Bytes → (used newsz p : ℕ) → Bytes → Decompressed → Type 0
PlainSound msg used newsz p tgt (named u v w) =
    (taken : ℕ) × (hops : ℕ) × (u ≡ used + taken)
    × (v + taken ≡ newsz)
    × (hops ≤ 255)
    × Reads msg p tgt w taken hops
PlainSound msg used newsz p tgt fault = ⊥
PlainSound msg used newsz p tgt diverged = ⊥
PlainSound msg used newsz p tgt _ = Unit

PlainSound-label :
    (msg : Bytes) (p lb : ℕ) (l tgt : Bytes) (used newsz : ℕ) (r : Decompressed)
    → get_elem? msg p ≡ some lb
    → 1 ≤ lb
    → lb ≤ 0x3f
    → lb < newsz
    → length l ≡ lb
    → Holds msg (p + 1) l
    → PlainSound msg (used + 1 + lb) (newsz - lb) (p + 1 + lb) (tgt ++ (lb ∷ l)) r
    → PlainSound msg used (suc newsz) p tgt r
unfolding PlainSound
PlainSound-label msg p lb l tgt used newsz (named u v w) e pos low left len held
      (t, h, a, b, few, r) =
    (1 + lb + t, h, omega arith, omega arith, few, Reads-label msg p lb l tgt e pos low len held r)
PlainSound-label msg p lb l tgt used newsz fault e pos low left len held s = s
PlainSound-label msg p lb l tgt used newsz diverged e pos low left len held s = s
PlainSound-label msg p lb l tgt used newsz _ e pos low left len held s = tt

PlainSound-pointer :
    (msg : Bytes) (p hi lo : ℕ) (tgt : Bytes) (used newsz : ℕ) (r : Decompressed)
    → get_elem? msg p ≡ some hi
    → 0xc0 ≤ hi
    → get_elem? msg (p + 1) ≡ some lo
    → 1 ≤ newsz
    → JumpedSound msg (used + 2) (newsz - 1) 1 (offset hi lo) tgt r
    → PlainSound msg used (suc newsz) p tgt r
unfolding PlainSound JumpedSound
PlainSound-pointer msg p hi lo tgt used newsz (named u v w) e big e' left (a, b, (t, h, few, r)) =
    (2, suc h, omega arith, omega arith, omega arith, Reads-pointer msg p hi lo tgt e big e' r)
PlainSound-pointer msg p hi lo tgt used newsz fault e big e' left s = s
PlainSound-pointer msg p hi lo tgt used newsz diverged e big e' left s = s
PlainSound-pointer msg p hi lo tgt used newsz _ e big e' left s = tt

plain_labels_sound :
    (fuel : ℕ) (msg : Bytes) (used newsz p : ℕ) (tgt : Bytes)
    → p < length msg
    → length tgt < dnsnamebufsize
    → 1 ≤ newsz
    → 767 < fuel + length tgt
    → PlainSound msg used newsz p tgt (plain_labels fuel msg used newsz p tgt)
unfolding PlainSound
plain_labels_sound zero msg used newsz p tgt inside room left f = absurd (omega arith)
plain_labels_sound (suc fuel) msg used zero p tgt inside room left f = absurd (omega arith)
plain_labels_sound (suc fuel) msg used (suc newsz) p tgt inside room left f =
    elim (plain_round fuel msg used newsz p tgt inside room) [
      | stop why is ↦ rw is tt
      | short is ↦ rw is tt
      | end e is ↦ rw is (1, 0, refl, omega arith, omega arith, Reads-root msg p tgt e room)
      | take_label lb l e pos low more len held next fits is ↦ rw is (
          PlainSound-label msg p lb l tgt used newsz _ e pos low more len held (
            plain_labels_sound fuel msg (used + 1 + lb) (newsz - lb) (p + 1 + lb) (tgt ++ (lb ∷ l))
              next (omega (arith, length-append tgt (lb ∷ l))) (omega arith)
              (omega (arith, length-append tgt (lb ∷ l)))))
      | jump hi lo e big e' there free is ↦ rw is (
          PlainSound-pointer msg p hi lo tgt used newsz _ e big e' free (
            jumped_sound fuel msg (used + 2) (newsz - 1) 1 (offset hi lo) tgt there room
              (omega arith) (omega arith)))
    ]

-- What a call of `decompress_name` may return.
abbrev pub Sound : Bytes → (src sz : ℕ) → Decompressed → Type 0
Sound msg src sz (named used left tgt) =
    (hops : ℕ) × (used + left ≡ sz) × (hops ≤ 255) × Reads msg src [] tgt used hops
Sound msg src sz fault = ⊥
Sound msg src sz diverged = ⊥
Sound msg src sz _ = Unit

PlainSound-Sound :
    (msg : Bytes) (src sz : ℕ) (r : Decompressed)
    → PlainSound msg 0 sz src [] r
    → Sound msg src sz r
unfolding PlainSound
PlainSound-Sound msg src sz (named u v w) (t, h, a, b, few, r) =
    let e : t ≡ u = omega arith in (h, omega arith, few, rw e at r)
PlainSound-Sound msg src sz fault s = s
PlainSound-Sound msg src sz diverged s = s
PlainSound-Sound msg src sz _ s = tt

-- On any message and at any position, `decompress_name` reads only bytes of the message, writes only
-- the `DNSNAMEBUFSIZE` bytes of `tgt`, never takes `newsz` below zero and comes to an end. If it
-- succeeds, the message holds a name of proper labels there, read through at most 255 pointers, `tgt`
-- is its uncompressed form of at most 256 bytes, and `*src` and `*sz` move by the bytes it takes.
pub decompress_name-Sound :
    (msg : Bytes) (src sz : ℕ) → Sound msg src sz (decompress_name msg src sz)
decompress_name-Sound msg src sz = elim (Bool-cases (sz == 0)) [
  | inl z ↦ unfold decompress_name in rw z tt
  | inr more ↦ elim (Bool-cases (leb (length msg) src)) [
    | inl out ↦ unfold decompress_name in rw (more, out) tt
    | inr inside ↦ rw (decompress_name_starts msg src sz (ground arith) (ground arith)) (
        PlainSound-Sound msg src sz _ (
          plain_labels_sound enough_fuel msg 0 sz src [] (ground arith) (omega arith) (ground arith)
            (omega arith)))
  ]
]
