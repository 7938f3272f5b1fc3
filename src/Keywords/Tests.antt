-- ===== src/Keywords/Tests.antt =====
-- The search in the table of constants, for the word "on".
use tor_android_service_arch.Keywords.Search.{binsearch_keyword_finds}
use tor_android_service_arch.Keywords.{
  NameValue, keyncmp, binsearch_keyword, const_dic, lookup_const,
}
use tor_android_service_arch.Names.{Bytes}
use tor_android_service_arch.Prelude.{ℕ, ◌≡◌, ◌≢◌, refl, [], ◌∷◌, some, get_elem?}

abbrev on_word : Bytes
on_word = 111 ∷ 110 ∷ []

binsearch_keyword_finds_example :
    ((t : ℕ) (e : NameValue)
      → get_elem? const_dic t ≡ some e
      → binsearch_keyword e.name const_dic ≡ some e.val)
    × (((t : ℕ) (e : NameValue) → get_elem? const_dic t ≡ some e → on_word ≢ e.name)
        → binsearch_keyword on_word const_dic ≡ some 0)
binsearch_keyword_finds_example = binsearch_keyword_finds const_dic on_word (unfold keyncmp in refl)

-- C_ON is 1, and "o" is no constant.
lookup_const_on : lookup_const on_word ≡ some 1
unfolding lookup_const
lookup_const_on = refl

lookup_const_o : lookup_const (111 ∷ []) ≡ some 0
unfolding lookup_const
lookup_const_o = refl
