-- ===== src/Message/Decompress/Safe.antt =====
-- On any bytes: no read outside of the message, no write outside of `tgt`, no loop without end, and
-- what is returned is a name that the message holds.
use tor_android_service_arch.Names.Wire.{Label, encode, IsName}
use tor_android_service_arch.Names.{Bytes, dnsnamebufsize}
use tor_android_service_arch.Message.Decompress.{
  Decompressed, named, fault, diverged, offset, jumped,
}
use tor_android_service_arch.Message.Decompress.Rounds.{
  stop, short, end, take_label, jump, jumped_round,
}
use tor_android_service_arch.Message.Decompress.Denotes.{Holds, Denotes, root, label, pointer}
use tor_android_service_arch.Prelude.{
  ℕ, zero, suc, ◌+◌, ◌≤◌, ◌<◌, ◌≡◌, refl, ◌∙◌, arith, List, [], ◌∷◌, ◌++◌, some, append_assoc,
  length, length-append, get_elem?,
}

-- The name that `tgt` has been extended by to `w` stands in the message at `p`.
pub record Reads (msg : Bytes) (p : ℕ) (tgt w : Bytes) (used hops : ℕ) : Type 0 where
  pub labels : List Label
  pub denotes : Denotes msg p labels used hops
  pub written : w ≡ tgt ++ encode labels
  pub is_name : IsName labels
  pub fits : length w ≤ dnsnamebufsize

-- What `jumped` may return when it starts at `p` after `before` offsets.
unfoldable pub JumpedSound : Bytes → (used left before p : ℕ) → Bytes → Decompressed → Type 0
JumpedSound msg used left before p tgt (named u v w) =
    (u ≡ used)
    × (v ≡ left)
    × ((taken : ℕ) × (hops : ℕ) × (before + hops ≤ 255) × Reads msg p tgt w taken hops)
JumpedSound msg used left before p tgt fault = ⊥
JumpedSound msg used left before p tgt diverged = ⊥
JumpedSound msg used left before p tgt _ = Unit

module _ (msg : Bytes) (p lb : ℕ) (l tgt : Bytes) where
  pub Reads-label :
      {w : Bytes} {used hops : ℕ}
      → get_elem? msg p ≡ some lb
      → 1 ≤ lb
      → lb ≤ 0x3f
      → length l ≡ lb
      → Holds msg (p + 1) l
      → Reads msg (p + 1 + lb) (tgt ++ (lb ∷ l)) w used hops
      → Reads msg p tgt w (1 + lb + used) hops
  Reads-label e pos low len held r = record {
    labels = l ∷ r.labels;
    denotes = label e len pos low held r.denotes refl;
    written = r.written ∙ rw (append_assoc, len);
    is_name = (omega arith, omega arith, r.is_name);
    fits = r.fits;
  }

  JumpedSound-label :
      (used left before : ℕ) (r : Decompressed)
      → get_elem? msg p ≡ some lb
      → 1 ≤ lb
      → lb ≤ 0x3f
      → length l ≡ lb
      → Holds msg (p + 1) l
      → JumpedSound msg used left before (p + 1 + lb) (tgt ++ (lb ∷ l)) r
      → JumpedSound msg used left before p tgt r
  unfolding JumpedSound
  JumpedSound-label used left before (named u v w) e pos low len held (a, b, (t, h, few, r)) =
      (a, b, (1 + lb + t, h, few, Reads-label e pos low len held r))
  JumpedSound-label used left before fault e pos low len held s = s
  JumpedSound-label used left before diverged e pos low len held s = s
  JumpedSound-label used left before _ e pos low len held s = tt

pub Reads-pointer :
    (msg : Bytes) (p hi lo : ℕ) (tgt : Bytes) {w : Bytes} {used hops : ℕ}
    → get_elem? msg p ≡ some hi
    → 0xc0 ≤ hi
    → get_elem? msg (p + 1) ≡ some lo
    → Reads msg (offset hi lo) tgt w used hops
    → Reads msg p tgt w 2 (suc hops)
Reads-pointer msg p hi lo tgt e big e' r = record {
  labels = r.labels;
  denotes = pointer e big e' r.denotes;
  written = r.written;
  is_name = r.is_name;
  fits = r.fits;
}

pub Reads-root :
    (msg : Bytes) (p : ℕ) (tgt : Bytes)
    → get_elem? msg p ≡ some 0
    → length tgt < dnsnamebufsize
    → Reads msg p tgt (tgt ++ 0 ∷ []) 1 0
Reads-root msg p tgt e room = record {
  labels = [];
  denotes = root e;
  written = refl;
  is_name = tt;
  fits = omega (arith, length-append tgt (0 ∷ []));
}

JumpedSound-pointer :
    (msg : Bytes) (used left before p hi lo : ℕ) (tgt : Bytes) (r : Decompressed)
    → get_elem? msg p ≡ some hi
    → 0xc0 ≤ hi
    → get_elem? msg (p + 1) ≡ some lo
    → JumpedSound msg used left (before + 1) (offset hi lo) tgt r
    → JumpedSound msg used left before p tgt r
unfolding JumpedSound
JumpedSound-pointer msg used left before p hi lo tgt (named u v w) e big e' (a, b, (t, h, few, r)) =
    (a, b, (2, suc h, omega arith, Reads-pointer msg p hi lo tgt e big e' r))
JumpedSound-pointer msg used left before p hi lo tgt fault e big e' s = s
JumpedSound-pointer msg used left before p hi lo tgt diverged e big e' s = s
JumpedSound-pointer msg used left before p hi lo tgt _ e big e' s = tt

-- Reading by offsets ends, stays within its buffers and returns what stands there.
pub jumped_sound :
    (fuel : ℕ) (msg : Bytes) (used left before p : ℕ) (tgt : Bytes)
    → p < length msg
    → length tgt < dnsnamebufsize
    → before ≤ 255
    → 511 < fuel + before + length tgt
    → JumpedSound msg used left before p tgt (jumped fuel msg used left before p tgt)
unfolding JumpedSound
jumped_sound zero msg used left before p tgt inside room few f = absurd (omega arith)
jumped_sound (suc fuel) msg used left before p tgt inside room few f =
    elim (jumped_round fuel msg used left before p tgt inside room) [
      | stop why is ↦ rw is tt
      | short is ↦ rw is tt
      | end e is ↦ rw is (refl, refl, (1, 0, omega arith, Reads-root msg p tgt e room))
      | take_label lb l e pos low _ len held next fits is ↦ rw is (
          JumpedSound-label msg p lb l tgt used left before _ e pos low len held (
            jumped_sound fuel msg used left before (p + 1 + lb) (tgt ++ (lb ∷ l)) next
              (omega (arith, length-append tgt (lb ∷ l))) few
              (omega (arith, length-append tgt (lb ∷ l)))))
      | jump hi lo e big e' there free is ↦ rw is (
          JumpedSound-pointer msg used left before p hi lo tgt _ e big e' (
            jumped_sound fuel msg used left (before + 1) (offset hi lo) tgt there room (omega arith)
              (omega arith)))
    ]
