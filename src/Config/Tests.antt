-- ===== src/Config/Tests.antt =====
-- The theorems at the word a"b.
use tor_android_service_arch.Config.Quoted.{quoted, scan_string-quoted}
use tor_android_service_arch.Config.Words.{buffered, word_of, scan_string-word_of}
use tor_android_service_arch.Config.{scanned, double_quote, scan_string}
use tor_android_service_arch.Names.{Bytes}
use tor_android_service_arch.Prelude.{ℕ, ◌≡◌, arith, Bool, ◌==◌, [], ◌∷◌, ◌++◌}

abbrev ab_word : Bytes
ab_word = 97 ∷ 34 ∷ 98 ∷ []

abbrev is_blank : ℕ → Bool
is_blank c = c == 32

scan_string-quoted_example :
    scan_string is_blank 8 (double_quote ∷ (quoted ab_word ++ double_quote ∷ 59 ∷ 0 ∷ []))
    ≡ scanned (ab_word ++ 0 ∷ []) 3 (59 ∷ 0 ∷ [])
scan_string-quoted_example =
    scan_string-quoted is_blank 8 ab_word (59 ∷ 0 ∷ [])
      (omega arith, (omega arith, (omega arith, tt))) (omega arith)

scan_string-word_of_example :
    scan_string is_blank 2 (97 ∷ 98 ∷ 99 ∷ 32 ∷ 0 ∷ [])
    ≡ buffered 2 [] (word_of is_blank (97 ∷ 98 ∷ 99 ∷ 32 ∷ 0 ∷ []))
scan_string-word_of_example = scan_string-word_of 2 is_blank (97 ∷ 98 ∷ 99 ∷ 32 ∷ 0 ∷ [])
