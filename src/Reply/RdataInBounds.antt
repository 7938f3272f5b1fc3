-- ===== src/Reply/RdataInBounds.antt =====
-- The data of a record of any type, within the message and the buffers.
use tor_android_service_arch.Reply.Bounded.{
  Inside, Bounded, if_Bounded, refused_format, at-Bounded, then_read-Bounded, bytes_at-length,
  copy_name-Bounded, copy_bytes-Bounded, no_junk-Bounded, bytes_name-Bounded, two_names-Bounded,
  nxt-Bounded,
}
use tor_android_service_arch.Message.Decompress.Total.{Sound, decompress_name-Sound}
use tor_android_service_arch.Message.Decompress.{
  Decompressed, named, truncated, format, fault, diverged,
}
use tor_android_service_arch.Names.Normal.{isnormalencdomname-some, length-drop}
use tor_android_service_arch.Names.{Bytes, dnsnamebufsize, isnormalencdomname}
use tor_android_service_arch.Prelude.{
  ℕ, zero, suc, ◌+◌, ◌-◌, ◌*◌, ◌≤◌, ◌<◌, ◌≡◌, inl, inr, refl, arith, Bool, true, false, Bool-cases,
  ltb, leb, ◌==◌, [], ◌∷◌, ◌++◌, some, length, length-append, drop, get_elem?,
}
use tor_android_service_arch.Reply.Rdata.{
  Cursor, then_read, after_name, no_junk, copy_name, nxt_size, naptr_size, naptr_strings,
  default_case, into_rbuf, plain_name, name_behind, gateway, ipseckey, read_layout, rdata_of,
  Layout, fixed, with_name, with_names, with_bitmap, with_strings, with_gateway, as_is,
  with_plain_name, layout_of,
}

-- The elements of the message are bytes.
abbrev pub AllBytes : Bytes → Type 0
AllBytes [] = Unit
AllBytes (b ∷ bs) = (b < 256) × AllBytes bs

pub byte_at :
    (msg : Bytes) (i : ℕ)
    → AllBytes msg
    → i < length msg
    → (b : ℕ) × (get_elem? msg i ≡ some b) × (b < 256)
byte_at [] i a h = absurd (omega (arith, h))
byte_at (b ∷ bs) zero a h = (b, refl, a.0)
byte_at (b ∷ bs) (suc i) a h = byte_at bs i a.1 (omega (arith, h))

-- The size of the buffer `db` or `rbuf`; what is taken as it is needs none.
abbrev pub buffer_size : (rdlength : ℕ) → Layout → ℕ
buffer_size n (fixed k) = n
buffer_size n (with_name k) = k + dnsnamebufsize
buffer_size n (with_names k m) = k + dnsnamebufsize + dnsnamebufsize + m
buffer_size n with_bitmap = nxt_size
buffer_size n with_strings = naptr_size
buffer_size n with_gateway = n + dnsnamebufsize
buffer_size n as_is = n
buffer_size n (with_plain_name k) = n + dnsnamebufsize

module _ (msg : Bytes) (bytes : AllBytes msg) where
  -- Every string takes at most 256 bytes.
  naptr_strings-Bounded :
      (left len : ℕ) (c : Cursor)
      → Inside msg 0 c
      → len + 256 * left ≤ 772
      → Bounded msg naptr_size (naptr_strings msg left len c)
  unfolding naptr_strings
  naptr_strings-Bounded zero len c h room =
      then_read-Bounded msg len naptr_size _ _
        (copy_bytes-Bounded msg 0 len naptr_size len c h (omega arith) (omega (arith, room)))
        (λ d k.
          then_read-Bounded msg (len + dnsnamebufsize) naptr_size _ no_junk
            (copy_name-Bounded msg len naptr_size d k (omega (arith, room)))
            (λ e he.
              no_junk-Bounded msg naptr_size e
                (record { there = he.there; written = omega (arith, he.written, room) })))
  naptr_strings-Bounded (suc left) len c h room = elim (Bool-cases (leb c.blcnt len)) [
    | inl z ↦ rw z (refused_format msg naptr_size)
    | inr z ↦
        let more : len < c.blcnt = ground (arith, z) in
        let (b, e, small) = byte_at msg (c.bptr + len) bytes (omega (arith, more, h.there)) in
        rw (z, e) (naptr_strings-Bounded left (len + (b + 1)) c h (omega (arith, room, small)))
  ]

  -- A record of type `fixed`, or one without a compressed name.
  default_case-Bounded :
      (w ptr rdlength : ℕ)
      → ptr + rdlength ≤ length msg
      → rdlength ≤ w
      → Bounded msg w (default_case msg ptr rdlength)
  default_case-Bounded w ptr rdlength h long =
      let (bs, e, n) = bytes_at-length msg ptr rdlength h in
      rw (default_case, e)
        (at-Bounded msg w _ (record { there = omega (arith, h); written = omega (arith, n, long) }))

  into_rbuf-Bounded :
      (al : Bool) (ptr rdlength n : ℕ) (c : Cursor)
      → ptr + rdlength ≤ length msg
      → n ≤ rdlength
      → c.blcnt + n ≤ rdlength
      → Inside msg dnsnamebufsize c
      → Bounded msg (rdlength + dnsnamebufsize) (into_rbuf msg al ptr n c)
  into_rbuf-Bounded false ptr rdlength n c h le sum k = record { bounded = inr refl }
  into_rbuf-Bounded true ptr rdlength n c h le sum k =
      let (head, e, m) = bytes_at-length msg ptr n (omega (arith, h, le)) in
      let (rest, f, o) = bytes_at-length msg c.bptr c.blcnt k.there in
      let parts = length-append head (c.db ++ rest) in
      let inner = length-append c.db rest in
      rw (e, f)
        (at-Bounded msg _ _ (record {
          there = omega (arith, k.there);
          written = omega (arith, parts, inner, m, o, sum, k.written);
        }))

  rbuf_name-Bounded :
      (al : Bool) (ptr rdlength n : ℕ) (r : Decompressed)
      → ptr + rdlength ≤ length msg
      → n ≤ rdlength
      → Sound msg (ptr + n) (rdlength - n) r
      → Bounded msg (rdlength + dnsnamebufsize) (
          then_read
            (after_name dnsnamebufsize (record { bptr = ptr + n; blcnt = rdlength - n; db = [] }) r)
            (into_rbuf msg al ptr n))
  rbuf_name-Bounded al ptr rdlength n (named used left nm) h le (hops, taken, few, r) =
      into_rbuf-Bounded al ptr rdlength n _ h le (omega (arith, taken, le))
        (record { there = omega (arith, h, taken, le); written = r.fits })
  rbuf_name-Bounded al ptr rdlength n truncated h le s = refused_format msg _
  rbuf_name-Bounded al ptr rdlength n (format r) h le s = refused_format msg _
  rbuf_name-Bounded al ptr rdlength n fault h le s = absurd s
  rbuf_name-Bounded al ptr rdlength n diverged h le s = absurd s

  plain_name-Bounded :
      (al : Bool) (ptr rdlength n : ℕ)
      → ptr + rdlength ≤ length msg
      → n ≤ rdlength
      → Bounded msg (rdlength + dnsnamebufsize) (
          plain_name msg al ptr rdlength n (isnormalencdomname (drop (ptr + n) msg) (rdlength - n)))
  unfolding copy_name
  plain_name-Bounded al ptr rdlength n h le =
      let (b, e) =
        isnormalencdomname-some (drop (ptr + n) msg) (rdlength - n)
          (omega (arith, h, le, length-drop (ptr + n) msg)) in
      rw (plain_name, e)
        (if_Bounded b
          (default_case-Bounded (rdlength + dnsnamebufsize) ptr rdlength h (omega arith))
          (rbuf_name-Bounded al ptr rdlength n _ h le
            (decompress_name-Sound msg (ptr + n) (rdlength - n))))

  name_behind-Bounded :
      (al : Bool) (ptr rdlength n : ℕ)
      → ptr + rdlength ≤ length msg
      → Bounded msg (rdlength + dnsnamebufsize) (name_behind msg al ptr rdlength n)
  unfolding name_behind
  name_behind-Bounded al ptr rdlength n h = elim (Bool-cases (ltb rdlength n)) [
    | inl z ↦ rw z (refused_format msg _)
    | inr z ↦ rw z (plain_name-Bounded al ptr rdlength n h (ground (arith, z)))
  ]

  gateway-Bounded :
      (al : Bool) (ptr rdlength gwtp : ℕ)
      → ptr + rdlength ≤ length msg
      → 3 ≤ rdlength
      → Bounded msg (rdlength + dnsnamebufsize) (gateway msg al ptr rdlength (some gwtp))
  gateway-Bounded al ptr rdlength gwtp h le =
      let w = rdlength + dnsnamebufsize in
      let whole = default_case-Bounded w ptr rdlength h (omega arith) in
      let short = refused_format msg w in
      if_Bounded (gwtp == 0) whole (
        if_Bounded (gwtp == 1) (if_Bounded (ltb (rdlength - 3) 4) short whole) (
          if_Bounded (gwtp == 2) (if_Bounded (ltb (rdlength - 3) 16) short whole)
            (if_Bounded (gwtp == 3) (plain_name-Bounded al ptr rdlength 3 h le) short)))

  ipseckey-Bounded :
      (al : Bool) (ptr rdlength : ℕ)
      → ptr + rdlength ≤ length msg
      → Bounded msg (rdlength + dnsnamebufsize) (ipseckey msg al ptr rdlength)
  unfolding ipseckey
  ipseckey-Bounded al ptr rdlength h = elim (Bool-cases (ltb rdlength 3)) [
    | inl z ↦ rw z (refused_format msg _)
    | inr z ↦
        let le : 3 ≤ rdlength = ground (arith, z) in
        let (gwtp, e, small) = byte_at msg (ptr + 1) bytes (omega (arith, h, le)) in
        rw (z, e) (gateway-Bounded al ptr rdlength gwtp h le)
  ]

  start-Inside :
      (ptr n : ℕ) → ptr + n ≤ length msg → Inside msg 0 (record { bptr = ptr; blcnt = n; db = [] })
  start-Inside ptr n h = record { there = h; written = omega arith }

  read_layout-Bounded :
      (al : Bool) (ptr n : ℕ) (l : Layout)
      → ptr + n ≤ length msg
      → Bounded msg (buffer_size n l) (read_layout msg al ptr n l)
  read_layout-Bounded al ptr n (fixed k) h =
      if_Bounded (n == k) (default_case-Bounded n ptr n h (omega arith)) (refused_format msg n)
  read_layout-Bounded al ptr n (with_name k) h = bytes_name-Bounded msg k _ (start-Inside ptr n h)
  read_layout-Bounded al ptr n (with_names k m) h =
      two_names-Bounded msg k m _ (start-Inside ptr n h)
  read_layout-Bounded al ptr n with_bitmap h = nxt-Bounded msg _ (start-Inside ptr n h)
  read_layout-Bounded al ptr n with_strings h =
      naptr_strings-Bounded 3 4 _ (start-Inside ptr n h) (omega arith)
  read_layout-Bounded al ptr n with_gateway h = ipseckey-Bounded al ptr n h
  read_layout-Bounded al ptr n as_is h = default_case-Bounded n ptr n h (omega arith)
  read_layout-Bounded al ptr n (with_plain_name k) h = name_behind-Bounded al ptr n k h

  -- The data of a record that lies in the message is read without a read behind the message or a
  -- write behind the buffer of its type, and it is refused only with RC_FORMAT or RC_FATALERR.
  pub rdata_of-Bounded :
      (al : Bool) (ptr rdlength type : ℕ)
      → ptr + rdlength ≤ length msg
      → Bounded msg (buffer_size rdlength (layout_of type)) (rdata_of msg al ptr rdlength type)
  unfolding rdata_of
  rdata_of-Bounded al ptr rdlength type h = read_layout-Bounded al ptr rdlength (layout_of type) h
