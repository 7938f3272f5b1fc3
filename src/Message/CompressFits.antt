-- ===== src/Message/CompressFits.antt =====
-- Compressing a name that fits, against names that fit.
use mathlib.Core.Path.{subst}
use tor_android_service_arch.Message.Compress.{
  Compel, Compressed, find_best, find_best_fits, add_name, write_name, compress_name,
}
use tor_android_service_arch.Message.Fits.{Fits, domain_match-Fits}
use tor_android_service_arch.Names.Walk.{walk-encode}
use tor_android_service_arch.Names.Wire.{Label, encode}
use tor_android_service_arch.Names.{Bytes, dnsnamebufsize, rhnlen}
use tor_android_service_arch.Prelude.{
  ℕ, ◌+◌, ◌≤◌, ◌≡◌, ◌⊎◌, inl, inr, refl, sym, ap, arith, Bool, true, false, Bool-cases, ◌&&◌, not,
  leb, ltb, ◌==◌, List, [], ◌∷◌, ◌++◌, append-nil, Option, none, some, take, length, length-append,
  length-take_short,
}

-- Every name of the list fits into a buffer.
abbrev pub NamesFit : List Compel → Type 0
NamesFit [] = Unit
NamesFit (ci ∷ cb) = ((ls : List Label) × Fits ci.s ls) × NamesFit cb

NamesFit-append :
    (cb : List Compel) (ci : Compel) (ls : List Label)
    → NamesFit cb
    → Fits ci.s ls
    → NamesFit (cb ++ ci ∷ [])
NamesFit-append [] ci ls h f = ((ls, f), tt)
NamesFit-append (c ∷ cb) ci ls h f = (h.0, NamesFit-append cb ci ls h.1 f)

-- The first bytes of the name, and at most two others behind them.
abbrev pub Begins : Bytes → Bytes → Type 0
Begins name out = (k : ℕ) × (t : Bytes) × (out ≡ take k name ++ t) × (length t ≤ 2)

-- What is written, and the list of names that is left; `allocated` is the outcome of `dlist_grow`.
abbrev pub CompressSound : (allocated : Bool) (name : Bytes) → Option Compressed → Type 0
CompressSound allocated name none = ⊥
CompressSound allocated name (some r) =
    (length r.out ≤ length name)
    × Begins name r.out
    × NamesFit r.cb
    × ((1 ≤ r.len) × (r.len ≡ length r.out) ⊎ (r.len ≡ 0) × (r.cb ≡ []) × (allocated ≡ false))

encode_longer : (ls : List Label) → 1 ≤ length (encode ls)
encode_longer [] = omega arith
encode_longer (l ∷ ls) = omega arith

module _ (tolower : ℕ → ℕ) (name : Bytes) (ls : List Label) (fits : Fits name ls) where
  name_len : rhnlen name ≡ some (length name)
  name_len =
      let (count, _, _, _) = walk-encode ls [] fits.is_name in
      rw fits.encoded (rw append-nil at count)

  find_best-some :
      (cb : List Compel) (longest lrem coffs : ℕ)
      → NamesFit cb
      → (best : ℕ × ℕ × ℕ) × (find_best tolower cb name longest lrem coffs ≡ some best)
  unfolding find_best
  find_best-some [] longest lrem coffs h = (_, refl)
  find_best-some (ci ∷ cb) longest lrem coffs ((ms, g), h) =
      let ((rv, rem, to), e, _) = domain_match-Fits tolower name ci.s ls ms fits g in
      rw (find_best, e)
        (elim (Bool-cases (ltb longest rv && leb (ci.index + to) 0x3fff)) [
          | inl b ↦ rw b (find_best-some cb rv rem (ci.index + to) h)
          | inr b ↦ rw b (find_best-some cb longest lrem coffs h)
        ])

  take_all : (n : Bytes) → take (length n) n ≡ n
  take_all [] = refl
  take_all (x ∷ n) = ap (λ m. x ∷ m) (take_all n)

  add_name-Sound :
      (allocated add : Bool) (offs rl : ℕ) (out : Bytes) (cb : List Compel)
      → NamesFit cb
      → 1 ≤ rl
      → rl ≤ length name
      → rl ≡ length out
      → Begins name out
      → CompressSound allocated name
          (some (add_name tolower allocated add name (length name) offs rl out cb))
  add_name-Sound allocated false offs rl out cb h one few e w =
      (omega (arith, few, e), w, h, inl (one, e))
  add_name-Sound true true offs rl out cb h one few e w =
      let kept = subst (λ m. Fits m ls) (sym (take_all name)) fits in
      (omega (arith, few, e), w, NamesFit-append cb _ ls h kept, inl (one, e))
  add_name-Sound false true offs rl out cb h one few e w =
      (omega (arith, few, e), w, tt, inr (refl, refl, refl))

  name_longer : 1 ≤ length name
  name_longer = subst (λ m. 1 ≤ length m) (sym fits.encoded) (encode_longer ls)

  name_short : length name ≤ dnsnamebufsize
  name_short = subst (λ m. length m ≤ dnsnamebufsize) (sym fits.encoded) fits.short

  -- A name that fits is compressed against a list of names that fit without a failed assertion,
  -- into no more bytes than it has: the length returned is that of the bytes written, or 0 where
  -- `dlist_grow` has failed. What is written is the name's beginning and at most two bytes behind
  -- it. The names of the list that is left fit again.
  pub compress_name-CompressSound :
      (allocated : Bool) (offs : ℕ) (cb : List Compel)
      → NamesFit cb
      → CompressSound allocated name (compress_name tolower allocated name offs cb)
  unfolding compress_name write_name
  compress_name-CompressSound allocated offs cb h =
      let small : leb (length name) dnsnamebufsize ≡ true = ground (arith, name_short) in
      let ((longest, lrem, coffs), e) = find_best-some cb 0 0 0 h in
      rw (compress_name, name_len, small, e)
        (elim (Bool-cases (ltb 0 longest)) [
          | inl found ↦
              let fit =
                find_best_fits tolower cb name (length name) 0 0 0 longest lrem coffs name_len
                  (λ z. absurd (omega (arith, z))) e (ground (arith, found)) in
              let room : leb (lrem + 2) (length name) ≡ true = ground (arith, fit) in
              rw (found, room)
                (add_name-Sound allocated (not (lrem == 0)) offs (lrem + 2) _ cb h (omega arith) fit
                  (rw (length-append, length-take_short lrem name (omega (arith, fit)))
                    (omega arith))
                  (lrem, _, refl, omega arith))
          | inr z ↦ rw z (
              add_name-Sound allocated true offs (length name) _ cb h name_longer (omega arith)
                (rw (take_all name) refl) (length name, [], sym (append-nil _), omega arith))
        ])
