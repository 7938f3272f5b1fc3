-- ===== src/Config.antt =====
-- Reading words of the configuration (conf-parser.c, scan_string, translescapedchar). A text is the
-- list of its bytes, with the zero byte at its end; a read behind that is `outside`. `isspace` is that
-- of the C library.
pub mod Quoted
pub mod Words
mod Tests
use tor_android_service_arch.Names.{Bytes}
use tor_android_service_arch.Prelude.{
  ℕ, zero, suc, ◌+◌, Bool, true, false, ◌&&◌, ◌||◌, ltb, ◌==◌, if◌then◌else◌, List, [], ◌∷◌, ◌++◌,
}

-- What is written to `outbuf`, with the return value `len` and `*curp`, or with an error message.
pub data Scanned : Type 0 where
  scanned : (outbuf : Bytes) (len : ℕ) (curp : Bytes) → Scanned
  no_closing_quote no_following_char outside : (outbuf : Bytes) → Scanned

-- The letters 'f', 'n', 'r', 't' and 'v'.
unfoldable pub translescapedchar : ℕ → ℕ
translescapedchar c =
    if c == 102
    then 12
    else if c == 110
    then 10
    else if c == 114
    then 13
    else if c == 116
    then 9
    else if c == 118
    then 11
    else c

abbrev pub double_quote : ℕ
double_quote = 34

abbrev pub backslash : ℕ
backslash = 92

abbrev pub slash : ℕ
slash = 47

abbrev pub asterisk_sign : ℕ
asterisk_sign = 42

-- `if(i<outbufsz) outbuf[i]= c`
abbrev pub put_char : (outbufsz i : ℕ) → Bytes → ℕ → Bytes
put_char outbufsz i outbuf c = if ltb i outbufsz then outbuf ++ c ∷ [] else outbuf

-- `if(i<outbufsz) outbuf[i]=0`
abbrev pub finish : (outbufsz i : ℕ) → Bytes → Bytes → Scanned
finish outbufsz i outbuf cur = scanned (put_char outbufsz i outbuf 0) i cur

-- The loop for a quoted string.
unfoldable pub scan_quoted : (outbufsz i : ℕ) → Bytes → Bytes → Scanned
unfolding translescapedchar
scan_quoted outbufsz i outbuf [] = outside outbuf
scan_quoted outbufsz i outbuf (c ∷ []) =
    if c == 0
    then no_closing_quote outbuf
    else if c == double_quote
    then finish outbufsz i outbuf []
    else outside outbuf
scan_quoted outbufsz i outbuf (c ∷ d ∷ cur) =
    let plain = scan_quoted outbufsz (i + 1) (put_char outbufsz i outbuf c) (d ∷ cur) in
    let after =
      scan_quoted outbufsz (i + 1) (put_char outbufsz i outbuf (translescapedchar d)) cur in
    if c == 0
    then no_closing_quote outbuf
    else if c == double_quote
    then finish outbufsz i outbuf (d ∷ cur)
    else if c == backslash
    then (if d == 0 then no_following_char outbuf else after)
    else plain

module _ (isspace : ℕ → Bool) where
  -- A character that ends a bare string; `d` is the one behind it.
  abbrev pub ends_bare : ℕ → ℕ → Bool
  ends_bare c d =
      isspace c
      || c == 44
      || c == 59
      || c == 123
      || c == 125
      || c == double_quote
      || c == 35
      || (c == slash && (d == slash || d == asterisk_sign))

  -- The loop for a bare string.
  unfoldable pub scan_bare : (outbufsz i : ℕ) → Bytes → Bytes → Scanned
  unfolding translescapedchar
  scan_bare outbufsz i outbuf [] = outside outbuf
  scan_bare outbufsz i outbuf (c ∷ []) =
      if c == 0 then finish outbufsz i outbuf (c ∷ []) else outside outbuf
  scan_bare outbufsz i outbuf (c ∷ d ∷ cur) =
      let plain = scan_bare outbufsz (i + 1) (put_char outbufsz i outbuf c) (d ∷ cur) in
      let after =
        scan_bare outbufsz (i + 1) (put_char outbufsz i outbuf (translescapedchar d)) cur in
      if c == 0
      then finish outbufsz i outbuf (c ∷ d ∷ cur)
      else if c == backslash
      then (if d == 0 then no_following_char outbuf else after)
      else if ends_bare c d
      then finish outbufsz i outbuf (c ∷ d ∷ cur)
      else plain

  unfoldable pub scan_string : (outbufsz : ℕ) → Bytes → Scanned
  unfolding scan_quoted scan_bare
  scan_string outbufsz [] = outside []
  scan_string outbufsz (c ∷ cur) =
      if c == double_quote then scan_quoted outbufsz 0 [] cur else scan_bare outbufsz 0 [] (c ∷ cur)
