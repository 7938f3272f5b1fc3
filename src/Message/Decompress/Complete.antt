-- ===== src/Message/Decompress/Complete.antt =====
-- A name that the message holds is read.
use tor_android_service_arch.Names.Wire.{Label, encode}
use tor_android_service_arch.Names.{Bytes, dnsnamebufsize}
use tor_android_service_arch.Message.Decompress.{
  named, copy_label, appended, append_label, offset, jumped, plain_labels, enough_fuel,
  decompress_name,
}
use tor_android_service_arch.Message.Decompress.Denotes.{Holds, Denotes, root, label, pointer}
use mathlib.Core.Path.{subst}
use native.Mathlib.Nat.{zero-add}
use tor_android_service_arch.Prelude.{
  ℕ, zero, suc, ◌+◌, ◌-◌, ◌≤◌, ◌<◌, ◌≡◌, ◌∙◌, arith, List, [], ◌∷◌, ◌++◌, some, append_assoc,
  append-nil, length, length-append, get_elem?,
}

get_elem?-lt : (msg : Bytes) (p : ℕ) {b : ℕ} → get_elem? msg p ≡ some b → p < length msg
get_elem?-lt [] p e = cc
get_elem?-lt (x ∷ msg) zero e = omega arith
get_elem?-lt (x ∷ msg) (suc p) e = omega (arith, get_elem?-lt msg p e)

copy_label-Holds :
    (msg : Bytes) (l : Label) (p : ℕ) (tgt : Bytes)
    → Holds msg p l
    → length tgt + length l ≤ dnsnamebufsize
    → copy_label msg (length l) p tgt ≡ some (tgt ++ l)
unfolding copy_label
copy_label-Holds msg [] p tgt h k = rw append-nil
copy_label-Holds msg (b ∷ l) p tgt h k = ground (
  arith,
  copy_label-Holds msg l (p + 1) (tgt ++ b ∷ []) h.1,
  length-append tgt (b ∷ []),
  append_assoc tgt (b ∷ []) l,
)

Denotes-lt :
    (msg : Bytes) (p : ℕ) (ls : List Label) (used hops : ℕ)
    → Denotes msg p ls used hops
    → p < length msg
Denotes-lt msg p ls used hops (root e) = get_elem?-lt msg p e
Denotes-lt msg p ls used hops (label e _ _ _ _ _ _) = get_elem?-lt msg p e
Denotes-lt msg p ls used hops (pointer e _ _ _) = get_elem?-lt msg p e

append_label-Holds :
    (msg : Bytes) (p lb : ℕ) (l tgt : Bytes)
    → length l ≡ lb
    → Holds msg (p + 1) l
    → p + 1 + lb < length msg
    → length tgt + 1 + lb < dnsnamebufsize
    → append_label msg (p + 1) lb (tgt ++ lb ∷ []) ≡ appended (tgt ++ (lb ∷ l))
unfolding append_label
append_label-Holds msg p lb l tgt w h inside room =
    let parts = length-append tgt (lb ∷ []) in
    let copy : copy_label msg lb (p + 1) (tgt ++ lb ∷ []) ≡ some (tgt ++ (lb ∷ l)) =
      subst (λ n. copy_label msg n (p + 1) (tgt ++ lb ∷ []) ≡ some (tgt ++ (lb ∷ l))) w
        (copy_label-Holds msg l (p + 1) (tgt ++ lb ∷ []) h (omega arith) ∙ rw append_assoc) in
    ground arith

jumped-root :
    (fuel : ℕ) (msg : Bytes) (used left hops p : ℕ) (tgt : Bytes)
    → get_elem? msg p ≡ some 0
    → length tgt < dnsnamebufsize
    → jumped (suc fuel) msg used left hops p tgt ≡ named used left (tgt ++ 0 ∷ [])
unfolding jumped
jumped-root fuel msg used left hops p tgt e h = ground arith

jumped-label :
    (fuel : ℕ) (msg : Bytes) (used left hops p lb : ℕ) (l tgt : Bytes)
    → get_elem? msg p ≡ some lb
    → length l ≡ lb
    → 1 ≤ lb
    → lb ≤ 0x3f
    → Holds msg (p + 1) l
    → p + 1 + lb < length msg
    → length tgt + 1 + lb < dnsnamebufsize
    → jumped (suc fuel) msg used left hops p tgt
      ≡ jumped fuel msg used left hops (p + 1 + lb) (tgt ++ (lb ∷ l))
unfolding jumped
jumped-label fuel msg used left hops p lb l tgt e w pos short h inside room =
    ground (arith, append_label-Holds msg p lb l tgt w h inside room)

jumped-pointer :
    (fuel : ℕ) (msg : Bytes) (used left hops p hi lo : ℕ) (tgt : Bytes)
    → get_elem? msg p ≡ some hi
    → 0xc0 ≤ hi
    → get_elem? msg (p + 1) ≡ some lo
    → p + 1 < length msg
    → offset hi lo < length msg
    → hops < 255
    → jumped (suc fuel) msg used left hops p tgt
      ≡ jumped fuel msg used left (hops + 1) (offset hi lo) tgt
unfolding jumped
jumped-pointer fuel msg used left hops p hi lo tgt e big e' inside there few = ground arith

plain_labels-root :
    (fuel : ℕ) (msg : Bytes) (used newsz p : ℕ) (tgt : Bytes)
    → get_elem? msg p ≡ some 0
    → length tgt < dnsnamebufsize
    → plain_labels (suc fuel) msg used (suc newsz) p tgt ≡ named (used + 1) newsz (tgt ++ 0 ∷ [])
unfolding plain_labels
plain_labels-root fuel msg used newsz p tgt e h = ground arith

plain_labels-label :
    (fuel : ℕ) (msg : Bytes) (used newsz p lb : ℕ) (l tgt : Bytes)
    → get_elem? msg p ≡ some lb
    → length l ≡ lb
    → 1 ≤ lb
    → lb ≤ 0x3f
    → Holds msg (p + 1) l
    → p + 1 + lb < length msg
    → lb < newsz
    → length tgt + 1 + lb < dnsnamebufsize
    → plain_labels (suc fuel) msg used (suc newsz) p tgt
      ≡ plain_labels fuel msg (used + 1 + lb) (newsz - lb) (p + 1 + lb) (tgt ++ (lb ∷ l))
unfolding plain_labels
plain_labels-label fuel msg used newsz p lb l tgt e w pos short h inside left room =
    ground (arith, append_label-Holds msg p lb l tgt w h inside room)

plain_labels-pointer :
    (fuel : ℕ) (msg : Bytes) (used newsz p hi lo : ℕ) (tgt : Bytes)
    → get_elem? msg p ≡ some hi
    → 0xc0 ≤ hi
    → get_elem? msg (p + 1) ≡ some lo
    → p + 1 < length msg
    → offset hi lo < length msg
    → 0 < newsz
    → plain_labels (suc fuel) msg used (suc newsz) p tgt
      ≡ jumped fuel msg (used + 2) (newsz - 1) 1 (offset hi lo) tgt
unfolding plain_labels
plain_labels-pointer fuel msg used newsz p hi lo tgt e big e' inside there left = ground arith

length-encode_pos : (ls : List Label) → 1 ≤ length (encode ls)
length-encode_pos [] = omega arith
length-encode_pos (l ∷ ls) = omega arith

Denotes-used :
    {msg : Bytes} {p used hops : ℕ} {ls : List Label} → Denotes msg p ls used hops → 1 ≤ used
Denotes-used (root e) = omega arith
Denotes-used (label e _ _ _ _ _ u) = omega arith
Denotes-used (pointer e _ _ _) = omega arith

jumped-Denotes :
    (fuel : ℕ) (msg : Bytes) (start left before : ℕ) (tgt : Bytes) {p : ℕ} {ls : List Label}
    {used hops : ℕ}
    → Denotes msg p ls used hops
    → before + hops ≤ 255
    → length tgt + length (encode ls) ≤ dnsnamebufsize
    → hops + length (encode ls) ≤ fuel
    → jumped fuel msg start left before p tgt ≡ named start left (tgt ++ encode ls)
jumped-Denotes zero msg start left before tgt {ls} d few room f =
    absurd (omega (arith, length-encode_pos ls))
jumped-Denotes (suc fuel) msg start left before tgt (root {p} e) few room f =
    jumped-root fuel msg start left before p tgt e (omega arith)
jumped-Denotes (suc fuel) msg start left before tgt (label {p} {lb} {l} {ls} e w pos short h d u)
      few room f =
    let parts = length-append l (encode ls) in
    let parts' = length-append tgt (lb ∷ l) in
    let end = length-encode_pos ls in
    jumped-label fuel msg start left before p lb l tgt e w pos short h (Denotes-lt msg _ _ _ _ d)
      (omega arith)
    ∙ jumped-Denotes fuel msg start left before (tgt ++ (lb ∷ l)) d few (omega arith) (omega arith)
    ∙ rw (append_assoc, w)
jumped-Denotes (suc fuel) msg start left before tgt {ls} (pointer {p} {hi} {lo} e big e' d) few room
      f =
    jumped-pointer fuel msg start left before p hi lo tgt e big e' (get_elem?-lt msg (p + 1) e')
      (Denotes-lt msg _ _ _ _ d) (omega arith)
    ∙ jumped-Denotes fuel msg start left (before + 1) tgt d (omega arith) room (omega arith)

plain_labels-Denotes :
    (fuel : ℕ) (msg : Bytes) (start newsz : ℕ) (tgt : Bytes) {p : ℕ} {ls : List Label}
    {used hops : ℕ}
    → Denotes msg p ls used hops
    → hops ≤ 255
    → used ≤ newsz
    → length tgt + length (encode ls) ≤ dnsnamebufsize
    → hops + length (encode ls) ≤ fuel
    → plain_labels fuel msg start newsz p tgt
      ≡ named (start + used) (newsz - used) (tgt ++ encode ls)
plain_labels-Denotes zero msg start newsz tgt {ls} d few h room f =
    absurd (omega (arith, length-encode_pos ls))
plain_labels-Denotes (suc fuel) msg start zero tgt d few h room f =
    absurd (omega (arith, Denotes-used d))
plain_labels-Denotes (suc fuel) msg start (suc newsz) tgt (root {p} e) few h room f =
    plain_labels-root fuel msg start newsz p tgt e (omega arith) ∙ ground arith
plain_labels-Denotes (suc fuel) msg start (suc newsz) tgt
      (label {p} {lb} {used} {l} {ls} e w pos short h d u) few s room f =
    let parts = length-append l (encode ls) in
    let parts' = length-append tgt (lb ∷ l) in
    let end = length-encode_pos ls in
    plain_labels-label fuel msg start newsz p lb l tgt e w pos short h (Denotes-lt msg _ _ _ _ d)
      (omega (arith, Denotes-used d)) (omega arith)
    ∙ plain_labels-Denotes fuel msg (start + 1 + lb) (newsz - lb) (tgt ++ (lb ∷ l)) d few
        (omega arith) (omega arith) (omega arith)
    ∙ ground (arith, append_assoc tgt (lb ∷ l) (encode ls))
plain_labels-Denotes (suc fuel) msg start (suc newsz) tgt {ls} (pointer {p} {hi} {lo} e big e' d)
      few h room f =
    plain_labels-pointer fuel msg start newsz p hi lo tgt e big e' (get_elem?-lt msg (p + 1) e')
      (Denotes-lt msg _ _ _ _ d) (omega arith)
    ∙ jumped-Denotes fuel msg (start + 2) (newsz - 1) 1 tgt d (omega arith) room (omega arith)
    ∙ ground arith

pub decompress_name_starts :
    (msg : Bytes) (src sz : ℕ)
    → 1 ≤ sz
    → src < length msg
    → decompress_name msg src sz ≡ plain_labels enough_fuel msg 0 sz src []
unfolding decompress_name
decompress_name_starts msg src sz h k = ground arith

-- `decompress_name` reads every name that the message holds at `src`, with at most 255 pointers and
-- in at most `DNSNAMEBUFSIZE` bytes when uncompressed, if the bytes that it takes at `src` lie within
-- the `sz` remaining ones; it moves on by those bytes.
pub decompress_name-Denotes :
    (msg : Bytes) (src sz : ℕ) (ls : List Label) (used hops : ℕ)
    → Denotes msg src ls used hops
    → hops ≤ 255
    → used ≤ sz
    → length (encode ls) ≤ dnsnamebufsize
    → decompress_name msg src sz ≡ named used (sz - used) (encode ls)
decompress_name-Denotes msg src sz ls used hops d few h room =
    decompress_name_starts msg src sz (omega (arith, Denotes-used d))
      (Denotes-lt msg src ls used hops d)
    ∙ plain_labels-Denotes enough_fuel msg 0 sz [] d few h (omega arith) (omega arith)
    ∙ rw zero-add
