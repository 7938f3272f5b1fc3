-- ===== src/Message/Decompress/Denotes.antt =====
-- What a place in a message stands for, independently of how it is read.
use tor_android_service_arch.Names.Wire.{Label}
use tor_android_service_arch.Names.{Bytes}
use tor_android_service_arch.Prelude.{
  ℕ, suc, ◌+◌, ◌*◌, ◌%◌, ◌≤◌, ◌≡◌, List, [], ◌∷◌, some, length, get_elem?,
}

-- The bytes of `l` stand in `msg` from `p` on.
abbrev pub Holds : Bytes → ℕ → Label → Type 0
Holds msg p [] = Unit
Holds msg p (b ∷ l) = (get_elem? msg p ≡ some b) × Holds msg (p + 1) l

-- `Denotes msg p ls used hops`: the name at `p` has the labels `ls`; it takes `used` bytes there,
-- up to and with the first pointer, and is read by way of `hops` pointers.
pub data Denotes (msg : Bytes) : ℕ → List Label → ℕ → ℕ → Type 0 where
  root : {p : ℕ} → get_elem? msg p ≡ some 0 → Denotes msg p [] 1 0
  label :
      {p lb used used' hops : ℕ} {l : Label} {ls : List Label}
      → get_elem? msg p ≡ some lb
      → length l ≡ lb
      → 1 ≤ lb
      → lb ≤ 0x3f
      → Holds msg (p + 1) l
      → Denotes msg (p + 1 + lb) ls used hops
      → used' ≡ 1 + lb + used
      → Denotes msg p (l ∷ ls) used' hops
  pointer :
      {p hi lo used hops : ℕ} {ls : List Label}
      → get_elem? msg p ≡ some hi
      → 0xc0 ≤ hi
      → get_elem? msg (p + 1) ≡ some lo
      → Denotes msg (hi % 0x40 * 0x100 + lo) ls used hops
      → Denotes msg p ls 2 (suc hops)
