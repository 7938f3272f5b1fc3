-- ===== src/Message/Decompress.antt =====
-- `decompress_name` (dns.c). A pointer into the message is its offset; `msgsz` is the length of
-- the message. Reads behind the message, writes behind the `DNSNAMEBUFSIZE` bytes of `tgt` and a
-- decrement of a zero `newsz` are `fault`, so they are errors of the model and not silent.
pub mod Denotes
pub mod Complete
mod Rounds
pub mod Safe
pub mod Total
mod Tests
use tor_android_service_arch.Names.{Bytes, dnsnamebufsize}
use tor_android_service_arch.Prelude.{
  ℕ, zero, suc, ◌+◌, ◌-◌, ◌*◌, ◌%◌, ltb, leb, ◌==◌, if◌then◌else◌, [], ◌∷◌, ◌++◌, Option, none,
  some, length, get_elem?,
}

-- The labels behind the loops that return RC_FORMAT.
pub data Reason : Type 0 where
  name_outside_msg unsupported_lbl_bits offset_outside_msg name_buf_full too_many_hops : Reason

-- `named used left tgt` is RC_OK: `*src` has moved on by `used`, `*sz` is `left`, and `tgt` holds
-- the name. `truncated` is RC_TRUNC, `diverged` an end of the fuel.
pub data Decompressed : Type 0 where
  named : (used left : ℕ) → (tgt : Bytes) → Decompressed
  truncated : Decompressed
  format : Reason → Decompressed
  fault : Decompressed
  diverged : Decompressed

-- `tgt[tpos++] = b`, with `tpos` the number of bytes in `tgt`
abbrev pub put : Bytes → ℕ → Option Bytes
put tgt b = if ltb (length tgt) dnsnamebufsize then some (tgt ++ b ∷ []) else none

-- `do { tgt[tpos++]=*lptr++; } while(--lb)`
unfoldable pub copy_label : Bytes → ℕ → ℕ → Bytes → Option Bytes
copy_label msg zero p tgt = some tgt
copy_label msg (suc lb) p tgt = elim (get_elem? msg p) [
  | none ↦ none
  | some b ↦ elim (put tgt b) [ none ↦ none | some tgt' ↦ copy_label msg lb (p + 1) tgt' ]
]

pub data Appended : Type 0 where
  appended : Bytes → Appended
  failed : Decompressed → Appended

-- The checks of a label and its copy, alike in both loops; `p` is behind the length byte.
unfoldable pub append_label : Bytes → (p lb : ℕ) → Bytes → Appended
unfolding copy_label
append_label msg p lb tgt =
    let copied : Appended = elim (copy_label msg lb p tgt) [
      | none ↦ failed fault
      | some tgt' ↦ appended tgt'
    ] in
    if leb (length msg) (p + lb)
    then failed (format name_outside_msg)
    else if ltb (dnsnamebufsize - 1) (length tgt + lb)
    then failed (format name_buf_full)
    else copied

-- `((lb & 0x3f) << 8) | b`
abbrev pub offset : ℕ → ℕ → ℕ
offset lb b = lb % 0x40 * 0x100 + b

-- The loop behind `jumped`, with the loop over successive offsets in it.
unfoldable pub jumped : ℕ → Bytes → (used left : ℕ) → (hops p : ℕ) → Bytes → Decompressed
unfolding append_label
jumped zero msg used left hops p tgt = diverged
jumped (suc fuel) msg used left hops p tgt = elim (get_elem? msg p) [
  | none ↦ fault
  | some lb ↦
      let follow : Decompressed = elim (get_elem? msg (p + 1)) [
        | none ↦ fault
        | some b ↦
            let there = jumped fuel msg used left (hops + 1) (offset lb b) tgt in
            if leb (length msg) (offset lb b) then format offset_outside_msg else there
      ] in
      let label : Decompressed = elim (put tgt lb) [
        | none ↦ fault
        | some tgt' ↦
            let more : Decompressed = elim (append_label msg (p + 1) lb tgt') [
              | failed d ↦ d
              | appended tgt'' ↦ jumped fuel msg used left hops (p + 1 + lb) tgt''
            ] in
            if lb == 0 then named used left tgt' else more
      ] in
      if ltb 0x3f lb
      then (if ltb lb 0xc0
          then format unsupported_lbl_bits
          else if leb (length msg) (p + 1)
          then format name_outside_msg
          else if ltb 255 (hops + 1)
          then format too_many_hops
          else follow)
      else label
]

-- The first loop. `used` is `oldsz - newsz`.
unfoldable pub plain_labels : ℕ → Bytes → (used newsz p : ℕ) → Bytes → Decompressed
unfolding jumped append_label
plain_labels zero msg used newsz p tgt = diverged
plain_labels (suc fuel) msg used zero p tgt = fault
plain_labels (suc fuel) msg used (suc newsz) p tgt = elim (get_elem? msg p) [
  | none ↦ fault
  | some lb ↦
      let follow : Decompressed = elim (get_elem? msg (p + 1)) [
        | none ↦ fault
        | some b ↦
            let there = jumped fuel msg (used + 2) (newsz - 1) 1 (offset lb b) tgt in
            if leb (length msg) (offset lb b) then format offset_outside_msg else there
      ] in
      let label : Decompressed = elim (put tgt lb) [
        | none ↦ fault
        | some tgt' ↦
            let more : Decompressed = elim (append_label msg (p + 1) lb tgt') [
              | failed d ↦ d
              | appended tgt'' ↦
                  plain_labels fuel msg (used + 1 + lb) (newsz - lb) (p + 1 + lb) tgt''
            ] in
            if lb == 0
            then named (used + 1) newsz tgt'
            else if leb newsz lb
            then truncated
            else more
      ] in
      if ltb 0x3f lb
      then (if ltb lb 0xc0
          then format unsupported_lbl_bits
          else if newsz == 0
          then truncated
          else if leb (length msg) (p + 1)
          then format name_outside_msg
          else follow)
      else label
]

-- Each round adds to `tgt` or to `hops`.
abbrev pub enough_fuel : ℕ
enough_fuel = 1024

unfoldable pub decompress_name : Bytes → (src sz : ℕ) → Decompressed
unfolding plain_labels
decompress_name msg src sz =
    if sz == 0
    then truncated
    else if leb (length msg) src
    then format name_outside_msg
    else plain_labels enough_fuel msg 0 sz src []
