-- ===== src/Names/Text/Sound.antt =====
-- Whatever `str2rhn` accepts is the dotted notation of a name, and its output the encoding.
use tor_android_service_arch.Prelude.{
  ℕ, ◌+◌, ◌-◌, ◌≤◌, ◌<◌, ◌≡◌, ◌≢◌, ◌⊎◌, inl, inr, refl, ◌∙◌, true, arith, List, [], ◌∷◌, ◌++◌, some,
  append_assoc, length, length-append, Bool-cases,
}
use tor_android_service_arch.Names.{Bytes, dnsnamebufsize}
use tor_android_service_arch.Names.Text.{str2rhn_from, is_root, str2rhn}
use tor_android_service_arch.Names.Text.RoundTrip.{dotted, NoDot, IsPlain, length-dotted}
use tor_android_service_arch.Names.Wire.{Label, encode}

NoDot-snoc : (cs : Label) (c : ℕ) → NoDot cs → c ≢ b'.' → NoDot (cs ++ c ∷ [])
NoDot-snoc [] c n h = (h, tt)
NoDot-snoc (d ∷ cs) c n h = (n.0, NoDot-snoc cs c n.1 h)

-- The bytes behind `out` are those of a name that has been read from `str[i]` on.
record Reads (i : ℕ) (out s w : Bytes) : Type 0 where
  labels : List Label
  source : s ≡ dotted labels
  target : w ≡ out ++ encode labels
  plain : IsPlain labels
  fits : i + length (dotted labels) ≤ 255
  nonempty : 0 < i + length (dotted labels)

-- The variables of the loops.
record Inv (i j : ℕ) (label : Bytes) : Type 0 where
  width : i + length label ≡ j
  no_dot : NoDot label
  short : j ≤ i + 63
  start : i ≤ 255
  inside : i < j → j ≤ 254

Reads-nil :
    (i j : ℕ) (label out : Bytes) {w : Bytes}
    → Inv i j label
    → str2rhn_from i j label out [] ≡ some w
    → Reads i out (label ++ []) w
unfolding str2rhn_from
Reads-nil i j [] out v e = record {
  labels = [];
  source = refl;
  target = ground (arith, v.width);
  plain = record { labels = tt; no_dots = tt };
  fits = omega (arith, v.start);
  nonempty = ground (arith, v.width);
}
Reads-nil i j (c ∷ label) out v e = absurd (ground (arith, v.width))

Reads-dot :
    (i j : ℕ) (label out str : Bytes) {w : Bytes}
    → Inv i j label
    → i < j
    → Reads (j + 1) (out ++ ((j - i) ∷ label)) str w
    → Reads i out (label ++ (b'.' ∷ str)) w
Reads-dot i j label out str v p r =
    let width : j - i ≡ length label = omega (arith, v.width) in
    let parts = length-append label (b'.' ∷ dotted r.labels) in
    record {
      labels = label ∷ r.labels;
      source = rw r.source;
      target = r.target ∙ rw (width, append_assoc);
      plain = record {
        labels = (omega (arith, v.width), omega (arith, v.width, v.short), r.plain.labels);
        no_dots = (v.no_dot, r.plain.no_dots);
      };
      fits = omega (arith, v.width, r.fits);
      nonempty = omega (arith, v.width, r.fits);
    }

-- What a round that ends well has found.
str2rhn_from-next :
    (i j c : ℕ) (label out str : Bytes) {w : Bytes}
    → str2rhn_from i j label out (c ∷ str) ≡ some w
    → ((c ≡ b'.')
        × (i < j)
        × (str2rhn_from (j + 1) (j + 1) [] (out ++ ((j - i) ∷ label)) str ≡ some w))
      ⊎ ((c ≢ b'.')
          × (j < i + 63)
          × (j < 254)
          × (str2rhn_from i (j + 1) (label ++ c ∷ []) out str ≡ some w))
unfolding str2rhn_from
str2rhn_from-next i j c label out str e = ground arith

str2rhn_from-Reads :
    (i j : ℕ) (label out str : Bytes) {w : Bytes}
    → Inv i j label
    → str2rhn_from i j label out str ≡ some w
    → Reads i out (label ++ str) w
str2rhn_from-Reads i j label out [] v e = Reads-nil i j label out v e
str2rhn_from-Reads i j label out (c ∷ str) {w} v e =
    elim (str2rhn_from-next i j c label out str e) [
      | inl (dot, p, later) ↦
          let fresh : Inv (j + 1) (j + 1) [] = record {
            width = omega arith;
            no_dot = tt;
            short = omega arith;
            start = omega (arith, v.inside p);
            inside = λ h. omega arith;
          } in
          rw dot (
            Reads-dot i j label out str v p
              (str2rhn_from-Reads (j + 1) (j + 1) [] (out ++ ((j - i) ∷ label)) str fresh later))
      | inr (plain, near, low, later) ↦
          let longer : Inv i (j + 1) (label ++ c ∷ []) = record {
            width = omega (arith, v.width, length-append label (c ∷ []));
            no_dot = NoDot-snoc label c v.no_dot plain;
            short = omega arith;
            start = v.start;
            inside = λ h. omega arith;
          } in
          rw append_assoc at (str2rhn_from-Reads i (j + 1) (label ++ c ∷ []) out str longer later)
    ]

is_root_iff : (s : Bytes) → is_root s ≡ true → s ≡ b'.' ∷ []
is_root_iff [] e = cc
is_root_iff (c ∷ []) e = ground arith
is_root_iff (c ∷ d ∷ s) e = cc

-- What `str2rhn` accepts is the lone dot of the root, or the dotted notation of a name with proper
-- labels; the result is its transport format, within `DNSNAMEBUFSIZE` bytes.
pub str2rhn_sound :
    (s : Bytes) {w : Bytes}
    → str2rhn s ≡ some w
    → (length w ≤ dnsnamebufsize)
      × (((s ≡ b'.' ∷ []) × (w ≡ encode []))
          ⊎ ((ls : List Label) × IsPlain ls × (s ≡ dotted ls) × (w ≡ encode ls)))
unfolding str2rhn
str2rhn_sound s {w} e = elim (Bool-cases (is_root s)) [
  | inl root ↦
      let out : w ≡ 0 ∷ [] = ground arith in (rw out (omega arith), inl (is_root_iff s root, out))
  | inr other ↦
      let fresh : Inv 0 0 [] = record {
        width = refl;
        no_dot = tt;
        short = omega arith;
        start = omega arith;
        inside = λ h. omega arith;
      } in
      let r = str2rhn_from-Reads 0 0 [] [] s fresh (ground arith) in
      (
        rw r.target (omega (arith, length-dotted r.labels, r.fits)),
        inr (r.labels, r.plain, r.source, r.target),
      )
]
