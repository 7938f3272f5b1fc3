-- ===== src/Names/Text/RoundTrip.antt =====
-- The parsers against the dotted notation of a list of labels.
use tor_android_service_arch.Prelude.{
  ℕ, ◌+◌, ◌-◌, ◌≤◌, ◌<◌, ◌≡◌, ◌≢◌, refl, ◌∙◌, false, arith, List, [], ◌∷◌, ◌++◌, some, append_assoc,
  append-nil, length, length-append,
}
use tor_android_service_arch.Names.{Bytes, dnsnamebufsize}
use tor_android_service_arch.Names.Text.{str2rhn_from, is_root, str2rhn}
use tor_android_service_arch.Names.Wire.{Label, encode, IsName}

-- Every label is followed by a dot.
abbrev pub dotted : List Label → Bytes
dotted [] = []
dotted (l ∷ ls) = l ++ (b'.' ∷ dotted ls)

abbrev pub NoDot : Label → Type 0
NoDot [] = Unit
NoDot (c ∷ cs) = (c ≢ b'.') × NoDot cs

abbrev pub NoDots : List Label → Type 0
NoDots [] = Unit
NoDots (l ∷ ls) = NoDot l × NoDots ls

-- A name as it can be written without escapes: proper labels with no dot in them.
pub record IsPlain (ls : List Label) : Type 0 where
  pub labels : IsName ls
  pub no_dots : NoDots ls

str2rhn_from_char :
    (i j c : ℕ) (label out str : Bytes)
    → c ≢ b'.'
    → j < i + 63
    → j < 254
    → str2rhn_from i j label out (c ∷ str) ≡ str2rhn_from i (j + 1) (label ++ c ∷ []) out str
unfolding str2rhn_from
str2rhn_from_char i j c label out str n h k = ground arith

str2rhn_from_dot :
    (i j : ℕ) (label out str : Bytes)
    → i < j
    → str2rhn_from i j label out (b'.' ∷ str)
      ≡ str2rhn_from (j + 1) (j + 1) [] (out ++ ((j - i) ∷ label)) str
unfolding str2rhn_from
str2rhn_from_dot i j label out str h = ground arith

-- A label is read from `str[j]` up to the dot at `str[k]`.
str2rhn_from_label :
    (i j k : ℕ) (label out cs rest : Bytes)
    → NoDot cs
    → j + length cs ≡ k
    → i < k
    → k ≤ i + 63
    → k ≤ 254
    → str2rhn_from i j label out (cs ++ (b'.' ∷ rest))
      ≡ str2rhn_from (k + 1) (k + 1) [] (out ++ ((k - i) ∷ (label ++ cs))) rest
str2rhn_from_label i j k label out [] rest n e p h m =
    let here : j ≡ k = omega arith in rw (here, append-nil) (str2rhn_from_dot i k label out rest p)
str2rhn_from_label i j k label out (c ∷ cs) rest n e p h m =
    str2rhn_from_char i j c label out (cs ++ (b'.' ∷ rest)) n.0 (omega arith) (omega arith)
    ∙ str2rhn_from_label i (j + 1) k (label ++ c ∷ []) out cs rest n.1 (omega arith) p h m
    ∙ rw append_assoc

pub length-dotted : (ls : List Label) → length (dotted ls) + 1 ≡ length (encode ls)
length-dotted [] = refl
length-dotted (l ∷ ls) =
    omega (arith, length-append l (b'.' ∷ dotted ls), length-append l (encode ls), length-dotted ls)

str2rhn_from-dotted :
    (i : ℕ) (out : Bytes) (ls : List Label)
    → IsName ls
    → NoDots ls
    → 0 < i + length (dotted ls)
    → i + length (dotted ls) ≤ 255
    → str2rhn_from i i [] out (dotted ls) ≡ some (out ++ encode ls)
str2rhn_from-dotted i out [] n d p h = unfold str2rhn_from in ground arith
str2rhn_from-dotted i out (l ∷ ls) n d p h =
    let parts = length-append l (b'.' ∷ dotted ls) in
    let width : i + length l - i ≡ length l = omega arith in
    str2rhn_from_label i i (i + length l) [] out l (dotted ls) d.0 refl (omega arith) (omega arith)
      (omega arith)
    ∙ str2rhn_from-dotted (i + length l + 1) (out ++ ((i + length l - i) ∷ l)) ls n.2 d.1
        (omega arith) (omega arith)
    ∙ rw (append_assoc, width)

pub dotted_not_root : (ls : List Label) → IsName ls → is_root (dotted ls) ≡ false
dotted_not_root [] n = refl
dotted_not_root ([] ∷ ls) n = absurd (omega arith)
dotted_not_root ((c ∷ []) ∷ ls) n = refl
dotted_not_root ((c ∷ d ∷ cs) ∷ ls) n = refl

-- The dotted notation of a name with one label or more, if it fits into `DNSNAMEBUFSIZE`, is turned
-- into its transport format.
pub str2rhn-dotted :
    (ls : List Label)
    → IsPlain ls
    → ls ≢ []
    → length (encode ls) ≤ dnsnamebufsize
    → str2rhn (dotted ls) ≡ some (encode ls)
unfolding str2rhn
str2rhn-dotted [] n ne h = absurd (ne refl)
str2rhn-dotted (l ∷ ls) n ne h =
    let parts = length-append l (b'.' ∷ dotted ls) in
    rw (dotted_not_root (l ∷ ls) n.labels) (
      str2rhn_from-dotted 0 [] (l ∷ ls) n.labels n.no_dots (omega arith)
        (omega (arith, length-dotted (l ∷ ls))))
