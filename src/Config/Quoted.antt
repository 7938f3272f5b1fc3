-- ===== src/Config/Quoted.antt =====
-- A string in quotes is read back as it was.
use tor_android_service_arch.Config.{
  scanned, translescapedchar, double_quote, backslash, scan_quoted, scan_string,
}
use tor_android_service_arch.Names.{Bytes}
use tor_android_service_arch.Prelude.{
  ℕ, suc, ◌+◌, ◌≤◌, ◌<◌, ◌≡◌, ap, ◌∙◌, arith, Bool, true, false, ◌||◌, ◌==◌, if◌then◌else◌, [], ◌∷◌,
  ◌++◌, append_assoc, length, Bool-cases, inl, inr,
}

-- A backslash before each double quote and each backslash.
abbrev pub quoted : Bytes → Bytes
quoted [] = []
quoted (c ∷ cs) =
    if c == double_quote || c == backslash then backslash ∷ c ∷ quoted cs else c ∷ quoted cs

abbrev pub NoZero : Bytes → Type 0
NoZero [] = Unit
NoZero (c ∷ cs) = (1 ≤ c) × NoZero cs

module _ (outbufsz : ℕ) where
  plain_step :
      (i : ℕ) (outbuf : Bytes) (c : ℕ) (cur rest : Bytes)
      → 1 ≤ c
      → (c == double_quote || c == backslash) ≡ false
      → i < outbufsz
      → scan_quoted outbufsz i outbuf (c ∷ (cur ++ double_quote ∷ rest))
        ≡ scan_quoted outbufsz (i + 1) (outbuf ++ c ∷ []) (cur ++ double_quote ∷ rest)
  unfolding scan_quoted
  plain_step i outbuf c [] rest h n l = ground arith
  plain_step i outbuf c (d ∷ cur) rest h n l = ground arith

  escape_step :
      (i : ℕ) (outbuf : Bytes) (c : ℕ) (cur : Bytes)
      → (c == double_quote || c == backslash) ≡ true
      → i < outbufsz
      → scan_quoted outbufsz i outbuf (backslash ∷ c ∷ cur)
        ≡ scan_quoted outbufsz (i + 1) (outbuf ++ c ∷ []) cur
  unfolding scan_quoted translescapedchar
  escape_step i outbuf c cur n l = ground arith

  close_step :
      (i : ℕ) (outbuf : Bytes) (rest : Bytes)
      → i < outbufsz
      → scan_quoted outbufsz i outbuf (double_quote ∷ rest) ≡ scanned (outbuf ++ 0 ∷ []) i rest
  unfolding scan_quoted
  close_step i outbuf [] l = ground arith
  close_step i outbuf (d ∷ rest) l = ground arith

  scan_quoted-quoted :
      (cs : Bytes) (i : ℕ) (outbuf rest : Bytes)
      → NoZero cs
      → i + length cs < outbufsz
      → scan_quoted outbufsz i outbuf (quoted cs ++ double_quote ∷ rest)
        ≡ scanned (outbuf ++ (cs ++ 0 ∷ [])) (i + length cs) rest
  scan_quoted-quoted [] i outbuf rest n l =
      let e : i ≡ i + 0 = omega arith in
      close_step i outbuf rest (omega (arith, l))
      ∙ ap (λ (k : ℕ). scanned (outbuf ++ 0 ∷ []) k rest) e
  scan_quoted-quoted (c ∷ cs) i outbuf rest n l =
      let next = scan_quoted-quoted cs (i + 1) (outbuf ++ c ∷ []) rest n.1 (omega (arith, l)) in
      let step : i + 1 + length cs ≡ i + suc (length cs) = omega arith in
      let moved : scanned ((outbuf ++ c ∷ []) ++ (cs ++ 0 ∷ [])) (i + 1 + length cs) rest
          ≡ scanned (outbuf ++ (c ∷ (cs ++ 0 ∷ []))) (i + suc (length cs)) rest =
        ap (λ (k : ℕ). scanned ((outbuf ++ c ∷ []) ++ (cs ++ 0 ∷ [])) k rest) step
        ∙ ap (λ (o : Bytes). scanned o (i + suc (length cs)) rest)
            (append_assoc outbuf (c ∷ []) (cs ++ 0 ∷ [])) in
      elim (Bool-cases (c == double_quote || c == backslash)) [
        | inl e ↦ rw e (
            escape_step i outbuf c (quoted cs ++ double_quote ∷ rest) e (omega (arith, l))
            ∙ next
            ∙ moved)
        | inr e ↦
            rw e (plain_step i outbuf c (quoted cs) rest n.0 e (omega (arith, l)) ∙ next ∙ moved)
      ]

-- A string without a zero byte that fits into the buffer with its end, in quotes and with a backslash
-- before each quote and each backslash, is read back as it was, with its length, and the reading stops
-- behind the closing quote.
pub scan_string-quoted :
    (isspace : ℕ → Bool) (outbufsz : ℕ) (cs rest : Bytes)
    → NoZero cs
    → length cs < outbufsz
    → scan_string isspace outbufsz (double_quote ∷ (quoted cs ++ double_quote ∷ rest))
      ≡ scanned (cs ++ 0 ∷ []) (length cs) rest
unfolding scan_string
scan_string-quoted isspace outbufsz cs rest n l =
    let e : 0 + length cs ≡ length cs = omega arith in
    scan_quoted-quoted outbufsz cs 0 [] rest n (omega (arith, l))
    ∙ ap (λ (k : ℕ). scanned (cs ++ 0 ∷ []) k rest) e
