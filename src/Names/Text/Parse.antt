-- ===== src/Names/Text/Parse.antt =====
-- `parsestr2rhn` agrees with `str2rhn`, and does without the last dot.
use tor_android_service_arch.Prelude.{
  ℕ, ◌+◌, ◌-◌, ◌≤◌, ◌≡◌, ◌≢◌, ◌⊎◌, inl, inr, refl, sym, ◌∙◌, Bool, true, false, arith, ◌==◌,
  if◌then◌else◌, List, [], ◌∷◌, ◌++◌, some, length,
}
use tor_android_service_arch.Names.{Bytes, dnsnamebufsize}
use tor_android_service_arch.Names.Text.{
  str2rhn_from, is_root, str2rhn, parsed, parse_from, parsestr2rhn,
}
use tor_android_service_arch.Names.Text.RoundTrip.{dotted, IsPlain, dotted_not_root, str2rhn-dotted}
use tor_android_service_arch.Names.Wire.{Label, encode, take-append}

parse_from-str2rhn_from :
    (i j : ℕ) (label out s w : Bytes)
    → i ≤ j
    → str2rhn_from i j label out s ≡ some w
    → parse_from i j label out s ≡ parsed w
unfolding str2rhn_from parse_from
parse_from-str2rhn_from i j label out [] w h e = ground arith
parse_from-str2rhn_from i j label out (c ∷ s) w h e = ground (
  arith,
  parse_from-str2rhn_from (j + 1) (j + 1) [] (out ++ ((j - i) ∷ label)) s w (omega arith),
  parse_from-str2rhn_from i (j + 1) (label ++ c ∷ []) out s w (omega arith),
)

-- The text is not empty and does not end in a dot.
abbrev pub ends_plain : Bytes → Bool
ends_plain [] = false
ends_plain (c ∷ []) = if c == b'.' then false else true
ends_plain (c ∷ d ∷ s) = ends_plain (d ∷ s)

parse_from_last_dot :
    (i j c : ℕ) (label out s : Bytes)
    → i ≤ j
    → ends_plain (c ∷ s) ≡ true
    → parse_from i j label out ((c ∷ s) ++ b'.' ∷ []) ≡ parse_from i j label out (c ∷ s)
unfolding parse_from
parse_from_last_dot i j c label out [] h e = ground arith
parse_from_last_dot i j c label out (d ∷ s) h e = ground (
  arith,
  parse_from_last_dot (j + 1) (j + 1) d [] (out ++ ((j - i) ∷ label)) s,
  parse_from_last_dot i (j + 1) d (label ++ c ∷ []) out s,
)

is_root_plain : (s : Bytes) → ends_plain s ≡ true → is_root s ≡ false
is_root_plain [] e = cc
is_root_plain (c ∷ []) e = ground arith
is_root_plain (c ∷ d ∷ s) e = refl

parsestr2rhn_read :
    (s extra : Bytes)
    → is_root s ≡ false
    → parsestr2rhn (s ++ extra) (length s) ≡ parse_from 0 0 [] [] s
unfolding parsestr2rhn
parsestr2rhn_read s extra r = rw (take-append s extra, r)

-- On the dotted notation of a name that fits into `DNSNAMEBUFSIZE`, `parsestr2rhn` finds the
-- transport format, with the last dot or without it, and whatever bytes lie behind the first `len`.
pub parsestr2rhn-dotted :
    (s extra : Bytes) (ls : List Label)
    → IsPlain ls
    → ls ≢ []
    → length (encode ls) ≤ dnsnamebufsize
    → (s ≡ dotted ls) ⊎ ((s ++ b'.' ∷ [] ≡ dotted ls) × (ends_plain s ≡ true))
    → parsestr2rhn (s ++ extra) (length s) ≡ parsed (encode ls)
unfolding str2rhn
parsestr2rhn-dotted s extra ls n ne h (inl e) =
    let whole = dotted_not_root ls n.labels in
    let reads : str2rhn_from 0 0 [] [] (dotted ls) ≡ some (encode ls) =
      rw whole at (str2rhn-dotted ls n ne h) in
    rw (parsestr2rhn_read s extra (rw e whole), e)
      (parse_from-str2rhn_from 0 0 [] [] (dotted ls) (encode ls) (omega arith) reads)
parsestr2rhn-dotted [] extra ls n ne h (inr (e, p)) = absurd (cc)
parsestr2rhn-dotted (c ∷ s) extra ls n ne h (inr (e, p)) =
    let whole = dotted_not_root ls n.labels in
    let reads : str2rhn_from 0 0 [] [] (dotted ls) ≡ some (encode ls) =
      rw whole at (str2rhn-dotted ls n ne h) in
    parsestr2rhn_read (c ∷ s) extra (is_root_plain (c ∷ s) p)
    ∙ (sym (parse_from_last_dot 0 0 c [] [] s (omega arith) p)
        ∙ rw e (parse_from-str2rhn_from 0 0 [] [] (dotted ls) (encode ls) (omega arith) reads))
