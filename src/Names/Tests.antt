-- ===== src/Names/Tests.antt =====
-- The theorems at the names "ab.c" and "AB.C".
use tor_android_service_arch.Names.Compare.{same_label}
use tor_android_service_arch.Names.Equivalence.{FixesLengths, rhnicmp-same_label}
use tor_android_service_arch.Names.Text.Parse.{parsestr2rhn-dotted}
use tor_android_service_arch.Names.Text.RoundTrip.{IsPlain, dotted, str2rhn-dotted}
use tor_android_service_arch.Names.Text.Sound.{str2rhn_sound}
use tor_android_service_arch.Names.Text.{str2rhn, parsestr2rhn, parsed}
use tor_android_service_arch.Names.Walk.{HasName, isnormalencdomname_iff}
use tor_android_service_arch.Names.Wire.{Label, encode, IsName}
use tor_android_service_arch.Names.{Bytes, dnsnamebufsize, isnormalencdomname, rhnicmp}
use tor_android_service_arch.Prelude.{
  ℕ, ◌+◌, ◌≤◌, ◌≡◌, ◌↔◌, ◌⊎◌, inr, refl, arith, true, ◌&&◌, leb, if◌then◌else◌, List, [], ◌∷◌, ◌++◌,
  some, length, min,
}

abbrev ab_c : List Label
ab_c = (97 ∷ 98 ∷ []) ∷ (99 ∷ []) ∷ []

abbrev upper_ab_c : List Label
upper_ab_c = (65 ∷ 66 ∷ []) ∷ (67 ∷ []) ∷ []

abbrev pub ascii_lower : ℕ → ℕ
ascii_lower b = if leb 65 b && leb b 90 then b + 32 else b

ab_c-IsName : IsName ab_c
ab_c-IsName = (omega arith, omega arith, (omega arith, omega arith, tt))

upper_ab_c-IsName : IsName upper_ab_c
upper_ab_c-IsName = (omega arith, omega arith, (omega arith, omega arith, tt))

ab_c-IsPlain : IsPlain ab_c
ab_c-IsPlain = record {
  labels = ab_c-IsName;
  no_dots = ((λ e. omega arith, (λ e. omega arith, tt)), ((λ e. omega arith, tt), tt));
}

isnormalencdomname_iff_example :
    (isnormalencdomname (2 ∷ 97 ∷ 98 ∷ 0 ∷ 7 ∷ []) 10 ≡ some true)
    ↔ HasName (min dnsnamebufsize 10) 0 (2 ∷ 97 ∷ 98 ∷ 0 ∷ 7 ∷ [])
isnormalencdomname_iff_example = isnormalencdomname_iff (2 ∷ 97 ∷ 98 ∷ 0 ∷ 7 ∷ []) 10

str2rhn-dotted_example : str2rhn (dotted ab_c) ≡ some (encode ab_c)
str2rhn-dotted_example = str2rhn-dotted ab_c ab_c-IsPlain (λ e. cc) (omega arith)

abbrev ab_c_dot : Bytes
ab_c_dot = 97 ∷ 98 ∷ 46 ∷ 99 ∷ 46 ∷ []

str2rhn_sound_example :
    (length (encode ab_c) ≤ dnsnamebufsize)
    × (((ab_c_dot ≡ 46 ∷ []) × (encode ab_c ≡ encode []))
        ⊎ ((ls : List Label) × IsPlain ls × (ab_c_dot ≡ dotted ls) × (encode ab_c ≡ encode ls)))
str2rhn_sound_example = str2rhn_sound ab_c_dot (unfold str2rhn in refl)

parsestr2rhn-dotted_example :
    parsestr2rhn ((97 ∷ 98 ∷ 46 ∷ 99 ∷ []) ++ 32 ∷ []) 4 ≡ parsed (encode ab_c)
parsestr2rhn-dotted_example =
    parsestr2rhn-dotted (97 ∷ 98 ∷ 46 ∷ 99 ∷ []) (32 ∷ []) ab_c ab_c-IsPlain (λ e. cc) (omega arith)
      (inr (refl, refl))

ascii_lower-FixesLengths : FixesLengths ascii_lower
ascii_lower-FixesLengths n h = ground arith

rhnicmp-same_label_example :
    rhnicmp ascii_lower (encode ab_c ++ 7 ∷ []) (encode upper_ab_c ++ [])
    ≡ some (same_label ascii_lower (encode ab_c) (encode upper_ab_c))
rhnicmp-same_label_example =
    rhnicmp-same_label ascii_lower ab_c upper_ab_c (7 ∷ []) [] ascii_lower-FixesLengths ab_c-IsName
      upper_ab_c-IsName
