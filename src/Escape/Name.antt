-- ===== src/Escape/Name.antt =====
-- Names for diagnostic messages (helpers.c, `rhn2str`). `isgraph` is that of the C library; `str` is
-- what has been written.
use tor_android_service_arch.Escape.{octal}
use tor_android_service_arch.Names.{Bytes}
use tor_android_service_arch.Prelude.{
  ℕ, zero, suc, ◌+◌, ◌-◌, ◌≤◌, ◌<◌, ◌≡◌, arith, min, Bool, ◌||◌, leb, ◌==◌, if◌then◌else◌, List, [],
  ◌∷◌, ◌++◌, Option, none, some, length, take, replicate, length-append, length-replicate,
  Bool-cases, inl, inr,
}

-- Behind the label `overflow`: trailing dots.
unfoldable pub overflow : (size : ℕ) → List ℕ → List ℕ
overflow size str = take (size - 4) str ++ replicate (min 3 (size - 1)) b'.'

-- `str[j++]='.'` behind the last character of a label.
abbrev pub end_label : (left : ℕ) → List ℕ → List ℕ
end_label left str = if left == 0 then str ++ b'.' ∷ [] else str

module _ (isgraph : ℕ → Bool) where
  -- The loops, with `left` characters of the label to come; `none` is a read behind the buffer.
  unfoldable pub print_from : (size left : ℕ) → Bytes → List ℕ → Option (List ℕ)
  unfolding overflow
  print_from size left [] str = none
  print_from size zero (lb ∷ rhn) str =
      let more = print_from size lb rhn str in if lb == 0 then some str else more
  print_from size (suc left) (c ∷ rhn) str =
      let plain = print_from size left rhn (end_label left (str ++ c ∷ [])) in
      let quoted = print_from size left rhn (end_label left (str ++ b'\\' ∷ c ∷ [])) in
      let escaped = print_from size left rhn (end_label left (str ++ octal c)) in
      if leb size (length str + 2)
      then some (overflow size str)
      else if isgraph c
      then (if c == b'.' || c == b'\\' || c == b'"'
          then (if leb size (length str + 3)
              then some (overflow size (str ++ b'\\' ∷ []))
              else quoted)
          else plain)
      else if leb (size - 1 - length str) 4
      then some (overflow size (str ++ b'.' ∷ []))
      else escaped

  -- `none` is the result NULL, or a read behind the buffer.
  unfoldable pub rhn2str : Bytes → (size : ℕ) → Option (List ℕ)
  unfolding print_from
  rhn2str rhn zero = none
  rhn2str [] (suc size) = none
  rhn2str (lb ∷ rhn) (suc size) =
      let more = print_from (suc size) lb rhn [] in
      if lb == 0 then some (if leb 2 (suc size) then b'.' ∷ [] else []) else more

length-take : (n : ℕ) (xs : List ℕ) → length (take n xs) ≤ n
length-take zero xs = omega arith
length-take (suc n) [] = omega arith
length-take (suc n) (x ∷ xs) = omega (arith, length-take n xs)

overflow-lt : (size : ℕ) (str : List ℕ) → 0 < size → length (overflow size str) < size
unfolding overflow
overflow-lt size str h = omega (
  arith,
  length-append (take (size - 4) str) (replicate (min 3 (size - 1)) b'.'),
  length-take (size - 4) str,
  length-replicate {A = ℕ} (min 3 (size - 1)) b'.',
)

end_label-length :
    (left : ℕ) (str more : List ℕ)
    → length (end_label left (str ++ more)) ≤ length str + length more + 1
end_label-length left str more = elim (Bool-cases (left == 0)) [
  | inl z ↦ rw z (omega (arith, length-append (str ++ more) (b'.' ∷ []), length-append str more))
  | inr s ↦ rw s (omega (arith, length-append str more))
]

module _ (isgraph : ℕ → Bool) where
  print_from-lt :
      (size left : ℕ) (rhn str : List ℕ) {out : List ℕ}
      → length str < size
      → print_from isgraph size left rhn str ≡ some out
      → length out < size
  unfolding print_from
  print_from-lt size zero [] str {out} h e = cc
  print_from-lt size (suc left) [] str {out} h e = cc
  print_from-lt size zero (lb ∷ rhn) str {out} h e =
      ground (arith, print_from-lt size lb rhn str {out = out})
  print_from-lt size (suc left) (c ∷ rhn) str {out} h e = ground (
    arith,
    print_from-lt size left rhn (end_label left (str ++ c ∷ [])) {out = out},
    print_from-lt size left rhn (end_label left (str ++ b'\\' ∷ c ∷ [])) {out = out},
    print_from-lt size left rhn (end_label left (str ++ octal c)) {out = out},
    end_label-length left str (c ∷ []),
    end_label-length left str (b'\\' ∷ c ∷ []),
    end_label-length left str (octal c),
    overflow-lt size str,
    overflow-lt size (str ++ b'\\' ∷ []),
    overflow-lt size (str ++ b'.' ∷ []),
  )

  -- What `rhn2str` writes, truncated or not, leaves a place for the final zero byte.
  pub rhn2str-lt :
      (rhn : Bytes) (size : ℕ) (out : List ℕ)
      → rhn2str isgraph rhn size ≡ some out
      → length out < size
  unfolding rhn2str
  rhn2str-lt rhn zero out e = cc
  rhn2str-lt [] (suc size) out e = cc
  rhn2str-lt (lb ∷ rhn) (suc size) out e =
      ground (arith, print_from-lt (suc size) lb rhn [] {out = out})
