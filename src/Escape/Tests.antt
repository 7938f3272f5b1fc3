-- ===== src/Escape/Tests.antt =====
-- A text with a quote and an unprintable byte.
use tor_android_service_arch.Escape.{escapestr}
use tor_android_service_arch.Prelude.{◌≡◌, refl, ℕ, Bool, ◌&&◌, leb, List, [], ◌∷◌, some}

abbrev ascii_print : ℕ → Bool
ascii_print c = leb 32 c && leb c 126

abbrev text : List ℕ
text = 97 ∷ 34 ∷ 7 ∷ []

text_escaped : escapestr ascii_print text 20 ≡ some (97 ∷ 92 ∷ 34 ∷ 92 ∷ 48 ∷ 48 ∷ 55 ∷ [])
unfolding escapestr
text_escaped = refl
