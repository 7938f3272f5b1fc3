-- ===== src/DynArray.antt =====
-- Dynamic arrays (list.c, `da_grow1`, `alloc_nel`, `da_resize`): the number `nel` of elements, and
-- the number `room` of those that the allocated block has space for. `realloc` keeps the elements;
-- `reallocated` is its outcome.
mod Tests
use tor_android_service_arch.Prelude.{
  ℕ, zero, suc, ◌+◌, ◌-◌, ◌*◌, ◌/◌, ◌%◌, ◌≤◌, ◌≡◌, refl, Bool, true, false, ◌&&◌, ◌||◌, not, ltb,
  ◌==◌, if◌then◌else◌, Option, none, some, arith, Bool-cases, inl, inr,
}

pub record Darray : Type 0 where
  pub nel : ℕ
  pub room : ℕ

-- What a call returns, and how many elements it has cleaned up before freeing the block.
pub record Resized : Type 0 where
  pub array : Option Darray
  pub cleaned : ℕ

abbrev pub alloc_nel : ℕ → ℕ
alloc_nel n = if n == 0 then 8 else (n + 7) / 8 * 8

-- `realloc` to `room` elements, of which `nel` will be in use.
abbrev resized : (reallocated : Bool) → (room nel cleaned : ℕ) → Resized
resized true room nel cleaned = record {
  array = some (record { nel = nel; room = room });
  cleaned = 0;
}
resized false room nel cleaned = record { array = none; cleaned = cleaned }

unfoldable pub da_grow1 : (reallocated : Bool) → Option Darray → Resized
da_grow1 reallocated none = resized reallocated (0 + 8) 1 0
da_grow1 reallocated (some a) =
    if not (a.nel == 0) && a.nel % 8 == 0
    then resized reallocated (a.nel + 8) (a.nel + 1) a.nel
    else record { array = some (record { nel = a.nel + 1; room = a.room }); cleaned = 0 }

unfoldable pub da_resize : (reallocated : Bool) → Option Darray → ℕ → Resized
da_resize reallocated none n =
    if not (alloc_nel n == 0)
    then resized reallocated (alloc_nel n) n 0
    else record { array = none; cleaned = 0 }
da_resize reallocated (some a) n =
    if not (alloc_nel n == alloc_nel a.nel)
    then resized reallocated (alloc_nel n) n a.nel
    else record { array = some (record { nel = n; room = a.room }); cleaned = 0 }

abbrev pub nel_of : Option Darray → ℕ
nel_of none = 0
nel_of (some a) = a.nel

-- The block has the space that `alloc_nel` says.
abbrev pub HasRoom : Option Darray → Type 0
HasRoom none = Unit
HasRoom (some a) = a.room ≡ alloc_nel a.nel

full_alloc : (n : ℕ) → not (n == 0) && n % 8 == 0 ≡ true → alloc_nel (n + 1) ≡ n + 8
full_alloc n h = ground arith

full_iff : (n : ℕ) → (not (alloc_nel (n + 1) == alloc_nel n)) ≡ (not (n == 0) && n % 8 == 0)
full_iff n = ground arith

-- `da_grow1` does what `da_resize` does for one element more.
pub da_grow1-da_resize :
    (reallocated : Bool) (a : Option Darray)
    → da_grow1 reallocated a ≡ da_resize reallocated a (nel_of a + 1)
unfolding da_grow1 da_resize
da_grow1-da_resize reallocated none = refl
da_grow1-da_resize reallocated (some a) = elim (Bool-cases (not (a.nel == 0) && a.nel % 8 == 0)) [
  | inl h ↦ rw (full_iff a.nel, h, full_alloc a.nel h) refl
  | inr h ↦ rw (full_iff a.nel, h) refl
]

-- The block of a resized array has the space that `alloc_nel` says, which is enough for its elements;
-- there are as many as asked for.
pub da_resize-HasRoom :
    (reallocated : Bool) (a : Option Darray) (n : ℕ) (b : Darray)
    → HasRoom a
    → (da_resize reallocated a n).array ≡ some b
    → (b.nel ≡ n) × (b.room ≡ alloc_nel n) × (n ≤ b.room)
unfolding da_resize
da_resize-HasRoom true none n b h e = ground arith
da_resize-HasRoom false none n b h e = ground arith
da_resize-HasRoom true (some a) n b h e = ground arith
da_resize-HasRoom false (some a) n b h e = ground arith
