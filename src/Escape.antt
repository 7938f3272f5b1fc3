-- ===== src/Escape.antt =====
-- Escape sequences for printing (helpers.c, `escapestr`). `isprint` is that of the C library; `str`
-- is what has been written, so that `j` is its length.
pub mod Name
mod Tests
use tor_android_service_arch.Prelude.{
  ℕ, zero, suc, ◌+◌, ◌-◌, ◌*◌, ◌/◌, ◌%◌, ◌≤◌, ◌<◌, ◌≡◌, refl, ap, arith, Bool, true, false, ◌&&◌,
  ◌||◌, not, leb, ltb, ◌==◌, if◌then◌else◌, List, [], ◌∷◌, ◌++◌, Option, none, some, length,
  length-append, Bool-cases, inl, inr,
}

-- `snprintf(&str[j],rem,"\\%03o",c)`
abbrev pub octal : ℕ → List ℕ
octal c = b'\\' ∷ (b'0' + c / 64) ∷ (b'0' + c / 8 % 8) ∷ (b'0' + c % 8) ∷ []

module _ (isprint : ℕ → Bool) where
  -- `none` is the return value -1.
  unfoldable pub escape_from : (size : ℕ) → List ℕ → List ℕ → Option (List ℕ)
  escape_from size [] str = some str
  escape_from size (c ∷ rest) str =
      let escaped = escape_from size rest (str ++ octal c) in
      let quoted = escape_from size rest (str ++ b'\\' ∷ c ∷ []) in
      let plain = escape_from size rest (str ++ c ∷ []) in
      if leb size (length str + 1)
      then none
      else if not (isprint c)
      then (if leb (size - length str) 4 then none else escaped)
      else if c == b'\\' || c == b'"'
      then (if leb size (length str + 2) then none else quoted)
      else plain

  unfoldable pub escapestr : List ℕ → (size : ℕ) → Option (List ℕ)
  unfolding escape_from
  escapestr str size = escape_from size str []

  escape_from-lt :
      (size : ℕ) (rest str : List ℕ) {out : List ℕ}
      → length str < size
      → escape_from size rest str ≡ some out
      → length out < size
  unfolding escape_from
  escape_from-lt size [] str {out} h e = ground arith
  escape_from-lt size (c ∷ rest) str {out} h e = ground (
    arith,
    escape_from-lt size rest (str ++ octal c) {out = out},
    escape_from-lt size rest (str ++ b'\\' ∷ c ∷ []) {out = out},
    escape_from-lt size rest (str ++ c ∷ []) {out = out},
    length-append str (octal c),
    length-append str (b'\\' ∷ c ∷ []),
    length-append str (c ∷ []),
  )

  escape_from-total :
      (size : ℕ) (rest str : List ℕ)
      → length str + 4 * length rest < size
      → (out : List ℕ) × (escape_from size rest str ≡ some out)
  unfolding escape_from
  escape_from-total size [] str h = (str, refl)
  escape_from-total size (c ∷ rest) str h =
      let room : leb size (length str + 1) ≡ false = ground arith in
      elim (Bool-cases (not (isprint c))) [
        | inl e ↦
            let more : leb (size - length str) 4 ≡ false = ground arith in
            rw (room, e, more)
              (escape_from-total size rest (str ++ octal c)
                (omega (arith, length-append str (octal c))))
        | inr e ↦ elim (Bool-cases (c == b'\\' || c == b'"')) [
          | inl q ↦
              let more : leb size (length str + 2) ≡ false = ground arith in
              rw (room, e, q, more)
                (escape_from-total size rest (str ++ b'\\' ∷ c ∷ [])
                  (omega (arith, length-append str (b'\\' ∷ c ∷ []))))
          | inr q ↦
              rw (room, e, q)
                (escape_from-total size rest (str ++ c ∷ [])
                  (omega (arith, length-append str (c ∷ []))))
        ]
      ]

  -- In a buffer of positive size, what `escapestr` writes leaves a place for the final zero byte; it
  -- finds room whenever the buffer has four bytes for each byte of the input, and one more.
  pub escapestr-lt :
      (str : List ℕ) (size : ℕ)
      → 0 < size
      → ((out : List ℕ) → escapestr str size ≡ some out → length out < size)
        × (4 * length str < size → (out : List ℕ) × (escapestr str size ≡ some out))
  unfolding escapestr
  escapestr-lt str size h =
      (λ out e. escape_from-lt size str [] h e, λ fits. escape_from-total size str [] (omega arith))
