-- ===== src/Names/Text.antt =====
-- `str2rhn` and `parsestr2rhn` (helpers.c): from dotted notation to the transport format. A C
-- string is the list of the bytes before its null byte. The two nested loops are one pass over the
-- bytes: `i` and `j` are the source's variables, `out` is what stands in `rhn` before `rhn[i]`, and
-- `label` what has been copied to `rhn[i+1]` up to `rhn[j]`.
pub mod RoundTrip
pub mod Sound
pub mod Parse
use tor_android_service_arch.Prelude.{
  ℕ, ◌+◌, ◌-◌, Bool, ltb, leb, ◌==◌, if◌then◌else◌, List, [], ◌∷◌, ◌++◌, Option, none, some, take,
  min,
}
use tor_android_service_arch.Names.{Bytes, dnsnamebufsize}

-- `jlim`
abbrev pub jlim : ℕ → ℕ
jlim i = if ltb (dnsnamebufsize - 2) (i + 63) then dnsnamebufsize - 2 else i + 63

-- The result is the bytes of `rhn` up to the null byte; `none` is the return value 0.
unfoldable pub str2rhn_from : (i j : ℕ) → (label out : Bytes) → Bytes → Option Bytes
str2rhn_from i j label out [] =
    if ltb i j then none else if i == 0 then none else some (out ++ 0 ∷ [])
str2rhn_from i j label out (c ∷ str) =
    let next = str2rhn_from (j + 1) (j + 1) [] (out ++ ((j - i) ∷ label)) str in
    let more = str2rhn_from i (j + 1) (label ++ c ∷ []) out str in
    if c == b'.' then (if leb j i then none else next) else if leb (jlim i) j then none else more

-- `*str=='.' && !*(str+1)`
abbrev pub is_root : Bytes → Bool
is_root [] = Bool.false
is_root (c ∷ []) = c == b'.'
is_root (c ∷ d ∷ str) = Bool.false

unfoldable pub str2rhn : Bytes → Option Bytes
unfolding str2rhn_from
str2rhn str = if is_root str then some (0 ∷ []) else str2rhn_from 0 0 [] [] str

-- The messages of `parsestr2rhn`.
pub data Parsed : Type 0 where
  parsed : Bytes → Parsed
  element_too_long : Parsed
  empty_element : Parsed
  empty_name : Parsed

-- `rhn[i]=0` and the last test
abbrev parse_finish : ℕ → Bytes → Parsed
parse_finish i out = if i == 0 then empty_name else parsed (out ++ 0 ∷ [])

unfoldable pub parse_from : (i j : ℕ) → (label out : Bytes) → Bytes → Parsed
parse_from i j label out [] =
    if leb j i then parse_finish i out else parse_finish (j + 1) (out ++ ((j - i) ∷ label))
parse_from i j label out (c ∷ str) =
    let next = parse_from (j + 1) (j + 1) [] (out ++ ((j - i) ∷ label)) str in
    let more = parse_from i (j + 1) (label ++ c ∷ []) out str in
    if c == b'.'
    then (if leb j i then empty_element else next)
    else if leb (jlim i) j
    then element_too_long
    else more

-- The bytes read are those before the null byte and before `str + len`.
unfoldable pub parsestr2rhn : Bytes → ℕ → Parsed
unfolding parse_from
parsestr2rhn str len =
    let read = take len str in if is_root read then parsed (0 ∷ []) else parse_from 0 0 [] [] read
