-- ===== src/Keywords.antt =====
-- The keywords of the configuration (consts.c): keyncmp, binsearch_keyword, lookup_const. A name is
-- the list of its bytes, none of which is zero; that of an entry ends before its zero byte.
pub mod Search
mod Tests
use tor_android_service_arch.Names.{Bytes}
use tor_android_service_arch.Prelude.{
  ℕ, zero, suc, ◌+◌, ◌-◌, ◌/◌, Bool, true, false, ltb, if◌then◌else◌, List, [], ◌∷◌, Option, none,
  some, length, get_elem?,
}

-- `namevalue_t`
pub record NameValue : Type 0 where
  pub name : Bytes
  pub val : ℕ

-- The sign of what `keyncmp` returns.
pub data Sign : Type 0 where
  negative same positive : Sign

-- `strncmp` compares bytes up to the end of the first name; then the byte of the second one counts.
unfoldable pub keyncmp : Bytes → Bytes → Sign
keyncmp [] [] = same
keyncmp [] (y ∷ b) = negative
keyncmp (x ∷ a) [] = positive
keyncmp (x ∷ a) (y ∷ b) =
    let rest = keyncmp a b in if ltb x y then negative else if ltb y x then positive else rest

-- The loop of `binsearch_keyword`; `none` is an end of the fuel, or a read out of the table.
unfoldable pub binsearch_from : ℕ → Bytes → List NameValue → (i j : ℕ) → Option ℕ
unfolding keyncmp
binsearch_from zero name dic i j = if ltb i j then none else some 0
binsearch_from (suc fuel) name dic i j =
    let k = (i + j) / 2 in
    let below = binsearch_from fuel name dic i k in
    let above = binsearch_from fuel name dic (k + 1) j in
    if ltb i j
    then elim (get_elem? dic k) [
      | none ↦ none
      | some e ↦ elim (keyncmp name e.name) [
        | negative ↦ below
        | same ↦ some e.val
        | positive ↦ above
      ]
    ]
    else some 0

-- Each round shortens the range.
unfoldable pub binsearch_keyword : Bytes → List NameValue → Option ℕ
unfolding binsearch_from
binsearch_keyword name dic = binsearch_from (length dic) name dic 0 (length dic)

abbrev pub const_dic : List NameValue
const_dic =
    record { name = 97 ∷ 117 ∷ 116 ∷ 104 ∷ []; val = 22 }
    ∷ record { name = 100 ∷ 101 ∷ 102 ∷ 97 ∷ 117 ∷ 108 ∷ 116 ∷ []; val = 3 }
    ∷ record { name = 100 ∷ 101 ∷ 118 ∷ []; val = 16 }
    ∷ record { name = 100 ∷ 105 ∷ 97 ∷ 108 ∷ 100 ∷ []; val = 17 }
    ∷ record { name = 100 ∷ 105 ∷ 115 ∷ 99 ∷ 111 ∷ 118 ∷ 101 ∷ 114 ∷ []; val = 4 }
    ∷ record { name = 100 ∷ 111 ∷ 109 ∷ 97 ∷ 105 ∷ 110 ∷ []; val = 23 }
    ∷ record { name = 101 ∷ 120 ∷ 99 ∷ 108 ∷ 117 ∷ 100 ∷ 101 ∷ 100 ∷ []; val = 19 }
    ∷ record { name = 101 ∷ 120 ∷ 101 ∷ 99 ∷ []; val = 7 }
    ∷ record { name = 102 ∷ 97 ∷ 105 ∷ 108 ∷ []; val = 24 }
    ∷ record { name = 102 ∷ 97 ∷ 108 ∷ 115 ∷ 101 ∷ []; val = 2 }
    ∷ record { name = 102 ∷ 113 ∷ 100 ∷ 110 ∷ 95 ∷ 111 ∷ 110 ∷ 108 ∷ 121 ∷ []; val = 21 }
    ∷ record { name = 105 ∷ 102 ∷ []; val = 6 }
    ∷ record { name = 105 ∷ 110 ∷ 99 ∷ 108 ∷ 117 ∷ 100 ∷ 101 ∷ 100 ∷ []; val = 18 }
    ∷ record { name = 110 ∷ 101 ∷ 103 ∷ 97 ∷ 116 ∷ 101 ∷ []; val = 25 }
    ∷ record { name = 110 ∷ 111 ∷ []; val = 2 }
    ∷ record { name = 110 ∷ 111 ∷ 110 ∷ 101 ∷ []; val = 5 }
    ∷ record { name = 111 ∷ 102 ∷ 102 ∷ []; val = 2 }
    ∷ record { name = 111 ∷ 110 ∷ []; val = 1 }
    ∷ record { name = 111 ∷ 110 ∷ 113 ∷ 117 ∷ 101 ∷ 114 ∷ 121 ∷ []; val = 10 }
    ∷ record { name = 111 ∷ 110 ∷ 116 ∷ 105 ∷ 109 ∷ 101 ∷ 111 ∷ 117 ∷ 116 ∷ []; val = 11 }
    ∷ record { name = 112 ∷ 105 ∷ 110 ∷ 103 ∷ []; val = 8 }
    ∷ record { name = 113 ∷ 117 ∷ 101 ∷ 114 ∷ 121 ∷ []; val = 9 }
    ∷ record {
      name = 115 ∷ 105 ∷ 109 ∷ 112 ∷ 108 ∷ 101 ∷ 95 ∷ 111 ∷ 110 ∷ 108 ∷ 121 ∷ [];
      val = 20;
    }
    ∷ record { name = 116 ∷ 99 ∷ 112 ∷ 95 ∷ 111 ∷ 110 ∷ 108 ∷ 121 ∷ []; val = 13 }
    ∷ record { name = 116 ∷ 99 ∷ 112 ∷ 95 ∷ 117 ∷ 100 ∷ 112 ∷ []; val = 14 }
    ∷ record { name = 116 ∷ 114 ∷ 117 ∷ 101 ∷ []; val = 1 }
    ∷ record { name = 117 ∷ 100 ∷ 112 ∷ 95 ∷ 111 ∷ 110 ∷ 108 ∷ 121 ∷ []; val = 12 }
    ∷ record { name = 117 ∷ 100 ∷ 112 ∷ 95 ∷ 116 ∷ 99 ∷ 112 ∷ []; val = 15 }
    ∷ record { name = 121 ∷ 101 ∷ 115 ∷ []; val = 1 }
    ∷ []

unfoldable pub lookup_const : Bytes → Option ℕ
unfolding binsearch_keyword
lookup_const name = binsearch_keyword name const_dic
