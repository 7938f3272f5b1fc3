-- ===== src/Config/Words.antt =====
-- What a word of the configuration stands for, apart from any buffer, and that scan_string reads it.
use mathlib.Core.Path.{subst}
use tor_android_service_arch.Config.{
  Scanned, scanned, no_closing_quote, no_following_char, outside, translescapedchar, double_quote,
  backslash, put_char, finish, scan_quoted, scan_bare, ends_bare, scan_string,
}
use tor_android_service_arch.Names.{Bytes}
use tor_android_service_arch.Prelude.{
  ℕ, zero, suc, ◌+◌, ◌≡◌, refl, sym, ap, ◌∙◌, arith, Bool, true, false, ltb, ◌==◌, if◌then◌else◌,
  [], ◌∷◌, ◌++◌, append-nil, append_assoc, length, take, length-append,
}

-- The characters of a word and the text behind it, or those read until the text ends: within the
-- quotes, behind a backslash, or without a zero byte.
pub data Word : Type 0 where
  word : (w rest : Bytes) → Word
  unclosed unescaped endless : (w : Bytes) → Word

-- A character before the others.
abbrev push : ℕ → Word → Word
push c (word w rest) = word (c ∷ w) rest
push c (unclosed w) = unclosed (c ∷ w)
push c (unescaped w) = unescaped (c ∷ w)
push c (endless w) = endless (c ∷ w)

-- A string up to its quote; a backslash takes the next character as it is, or as the letter stands for.
unfoldable pub quoted_word : Bytes → Word
unfolding translescapedchar
quoted_word [] = endless []
quoted_word (c ∷ []) =
    if c == 0 then unclosed [] else if c == double_quote then word [] [] else endless []
quoted_word (c ∷ d ∷ cur) =
    let plain = push c (quoted_word (d ∷ cur)) in
    let after = push (translescapedchar d) (quoted_word cur) in
    if c == 0
    then unclosed []
    else if c == double_quote
    then word [] (d ∷ cur)
    else if c == backslash
    then (if d == 0 then unescaped [] else after)
    else plain

-- The first `outbufsz` bytes of a word and the zero byte behind it, with the length of the word;
-- with an error, the first `outbufsz` of the characters read.
abbrev pub buffered : (outbufsz : ℕ) → (acc : Bytes) → Word → Scanned
buffered outbufsz acc (word w rest) =
    scanned (take outbufsz ((acc ++ w) ++ 0 ∷ [])) (length (acc ++ w)) rest
buffered outbufsz acc (unclosed w) = no_closing_quote (take outbufsz (acc ++ w))
buffered outbufsz acc (unescaped w) = no_following_char (take outbufsz (acc ++ w))
buffered outbufsz acc (endless w) = outside (take outbufsz (acc ++ w))

module _ (isspace : ℕ → Bool) where
  -- A bare string, up to a character that ends it or the end of the text.
  unfoldable pub bare_word : Bytes → Word
  unfolding translescapedchar
  bare_word [] = endless []
  bare_word (c ∷ []) = if c == 0 then word [] (c ∷ []) else endless []
  bare_word (c ∷ d ∷ cur) =
      let plain = push c (bare_word (d ∷ cur)) in
      let after = push (translescapedchar d) (bare_word cur) in
      if c == 0
      then word [] (c ∷ d ∷ cur)
      else if c == backslash
      then (if d == 0 then unescaped [] else after)
      else if ends_bare isspace c d
      then word [] (c ∷ d ∷ cur)
      else plain

  -- The word at the beginning of a text.
  abbrev pub word_of : Bytes → Word
  word_of [] = endless []
  word_of (c ∷ cur) = if c == double_quote then quoted_word cur else bare_word (c ∷ cur)

take_nil : (n : ℕ) → take {A = ℕ} n [] ≡ []
take_nil zero = refl
take_nil (suc n) = refl

take-snoc :
    (n c : ℕ) (acc : Bytes)
    → (if ltb (length acc) n then take n acc ++ c ∷ [] else take n acc) ≡ take n (acc ++ c ∷ [])
take-snoc zero c [] = refl
take-snoc zero c (x ∷ acc) = ground arith
take-snoc (suc n) c [] = ground (arith, take_nil n)
take-snoc (suc n) c (x ∷ acc) = ground (arith, take-snoc n c acc)

module _ (n : ℕ) where
  buffered-push :
      (c : ℕ) (acc : Bytes) (w : Word) → buffered n (acc ++ c ∷ []) w ≡ buffered n acc (push c w)
  buffered-push c acc (word w rest) =
      ap (λ z. scanned (take n (z ++ 0 ∷ [])) (length z) rest) (append_assoc acc (c ∷ []) w)
  buffered-push c acc (unclosed w) =
      ap (λ z. no_closing_quote (take n z)) (append_assoc acc (c ∷ []) w)
  buffered-push c acc (unescaped w) =
      ap (λ z. no_following_char (take n z)) (append_assoc acc (c ∷ []) w)
  buffered-push c acc (endless w) = ap (λ z. outside (take n z)) (append_assoc acc (c ∷ []) w)

  -- A character is put behind the others, and the loop goes on.
  put_char-push :
      (f : ℕ → Bytes → Scanned) (w : Word) (c : ℕ) (acc : Bytes)
      → ((acc' : Bytes) → f (length acc') (take n acc') ≡ buffered n acc' w)
      → f (length acc + 1) (put_char n (length acc) (take n acc) c) ≡ buffered n acc (push c w)
  put_char-push f w c acc k =
      let one : length (acc ++ c ∷ []) ≡ length acc + 1 = length-append acc (c ∷ []) in
      rw (sym one, take-snoc n c acc) (k (acc ++ c ∷ []) ∙ buffered-push c acc w)

  if-buffered :
      (t : Bool) (acc : Bytes) (x y : Scanned) (v w : Word)
      → x ≡ buffered n acc v
      → y ≡ buffered n acc w
      → (if t then x else y) ≡ buffered n acc (if t then v else w)
  if-buffered true acc x y v w e f = e
  if-buffered false acc x y v w e f = f

  finish-buffered :
      (acc cur : Bytes) → finish n (length acc) (take n acc) cur ≡ buffered n acc (word [] cur)
  finish-buffered acc cur = rw (append-nil, take-snoc n 0 acc) refl

  no_closing-buffered : (acc : Bytes) → no_closing_quote (take n acc) ≡ buffered n acc (unclosed [])
  no_closing-buffered acc = rw append-nil refl

  no_following-buffered :
      (acc : Bytes) → no_following_char (take n acc) ≡ buffered n acc (unescaped [])
  no_following-buffered acc = rw append-nil refl

  outside-buffered : (acc : Bytes) → outside (take n acc) ≡ buffered n acc (endless [])
  outside-buffered acc = rw append-nil refl

  scan_quoted-word :
      (cur acc : Bytes)
      → scan_quoted n (length acc) (take n acc) cur ≡ buffered n acc (quoted_word cur)
  unfolding scan_quoted quoted_word
  scan_quoted-word [] acc = outside-buffered acc
  scan_quoted-word (c ∷ []) acc =
      if-buffered (c == 0) acc _ _ _ _ (no_closing-buffered acc) (
        if-buffered (c == double_quote) acc _ _ _ _ (finish-buffered acc []) (outside-buffered acc))
  scan_quoted-word (c ∷ d ∷ cur) acc =
      let plain =
        put_char-push (λ i b. scan_quoted n i b (d ∷ cur)) _ c acc (scan_quoted-word (d ∷ cur)) in
      let after =
        put_char-push (λ i b. scan_quoted n i b cur) _ (translescapedchar d) acc
          (scan_quoted-word cur) in
      if-buffered (c == 0) acc _ _ _ _ (no_closing-buffered acc) (
        if-buffered (c == double_quote) acc _ _ _ _ (finish-buffered acc (d ∷ cur)) (
          if-buffered (c == backslash) acc _ _ _ _
            (if-buffered (d == 0) acc _ _ _ _ (no_following-buffered acc) after) plain))

  module _ (isspace : ℕ → Bool) where
    scan_bare-word :
        (cur acc : Bytes)
        → scan_bare isspace n (length acc) (take n acc) cur ≡ buffered n acc (bare_word isspace cur)
    unfolding scan_bare bare_word
    scan_bare-word [] acc = outside-buffered acc
    scan_bare-word (c ∷ []) acc =
        if-buffered (c == 0) acc _ _ _ _ (finish-buffered acc (c ∷ [])) (outside-buffered acc)
    scan_bare-word (c ∷ d ∷ cur) acc =
        let plain =
          put_char-push (λ i b. scan_bare isspace n i b (d ∷ cur)) _ c acc
            (scan_bare-word (d ∷ cur)) in
        let after =
          put_char-push (λ i b. scan_bare isspace n i b cur) _ (translescapedchar d) acc
            (scan_bare-word cur) in
        if-buffered (c == 0) acc _ _ _ _ (finish-buffered acc (c ∷ d ∷ cur)) (
          if-buffered (c == backslash) acc _ _ _ _
            (if-buffered (d == 0) acc _ _ _ _ (no_following-buffered acc) after)
            (if-buffered (ends_bare isspace c d) acc _ _ _ _ (finish-buffered acc (c ∷ d ∷ cur))
              plain))

    -- On any text, scan_string reads the word at its beginning, which is described apart from any
    -- buffer: of its characters and the zero byte behind them it writes the first `outbufsz`, gives
    -- the length of the whole word and leaves `*curp` behind it. Where it reports an error, it has
    -- written the first `outbufsz` of the characters before the error; it reads behind the text
    -- only where the text ends before the word does.
    pub scan_string-word_of :
        (cur : Bytes) → scan_string isspace n cur ≡ buffered n [] (word_of isspace cur)
    unfolding scan_string
    scan_string-word_of [] = ap outside (sym (take_nil n))
    scan_string-word_of (c ∷ cur) =
        if-buffered (c == double_quote) [] _ _ _ _
          (subst (λ b. scan_quoted n 0 b cur ≡ buffered n [] (quoted_word cur)) (take_nil n)
            (scan_quoted-word cur []))
          (subst
            (λ b. scan_bare isspace n 0 b (c ∷ cur) ≡ buffered n [] (bare_word isspace (c ∷ cur)))
            (take_nil n) (scan_bare-word (c ∷ cur) []))
