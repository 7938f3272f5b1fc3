-- ===== src/Reply/Bounded.antt =====
-- Reading names and bytes of a record into a buffer: no read behind the message, no write behind the
-- buffer, no loop without end.
use tor_android_service_arch.Message.Decompress.Total.{Sound, decompress_name-Sound}
use tor_android_service_arch.Message.Decompress.{
  Decompressed, named, truncated, format, fault, diverged,
}
use tor_android_service_arch.Names.Normal.{length-drop}
use tor_android_service_arch.Names.{Bytes, dnsnamebufsize}
use tor_android_service_arch.Prelude.{
  ℕ, ◌+◌, ◌≤◌, ◌≡◌, ◌⊎◌, inl, inr, refl, arith, Bool, true, false, Bool-cases, ltb, leb,
  if◌then◌else◌, some, length, length-append, take, drop, length-take_short,
}
use tor_android_service_arch.Query.{rc_format, rc_fatalerr}
use tor_android_service_arch.Reply.Rdata.{
  Cursor, Reading, at, refused, faulted, then_read, bytes_at, after_name, no_junk, copy_bytes,
  copy_name, bytes_name, two_names, nxt_size, nxt_rest, nxt,
}

-- The rest of the data lies in the message, and `w` bytes at most are written.
pub record Inside (msg : Bytes) (w : ℕ) (c : Cursor) : Type 0 where
  pub there : c.bptr + c.blcnt ≤ length msg
  pub written : length c.db ≤ w

abbrev pub Read : (msg : Bytes) (w : ℕ) → Reading → Type 0
Read msg w (at c) = Inside msg w c
Read msg w (refused rc) = (rc ≡ rc_format) ⊎ (rc ≡ rc_fatalerr)
Read msg w faulted = ⊥

pub record Bounded (msg : Bytes) (w : ℕ) (r : Reading) : Type 0 where
  pub bounded : Read msg w r

pub if_Bounded :
    {msg : Bytes} {w : ℕ} (b : Bool) {x y : Reading}
    → Bounded msg w x
    → Bounded msg w y
    → Bounded msg w (if b then x else y)
if_Bounded true h k = h
if_Bounded false h k = k

module _ (msg : Bytes) where
  pub refused_format : (w : ℕ) → Bounded msg w (refused rc_format)
  refused_format w = record { bounded = inl refl }

  pub at-Bounded : (w : ℕ) (c : Cursor) → Inside msg w c → Bounded msg w (at c)
  at-Bounded w c h = record { bounded = h }

  pub then_read-Bounded :
      (v w : ℕ) (r : Reading) (f : Cursor → Reading)
      → Bounded msg v r
      → ((c : Cursor) → Inside msg v c → Bounded msg w (f c))
      → Bounded msg w (then_read r f)
  then_read-Bounded v w (at c) f h k = k c h.bounded
  then_read-Bounded v w (refused rc) f h k = record { bounded = h.bounded }
  then_read-Bounded v w faulted f h k = absurd h.bounded

  pub bytes_at-length :
      (p n : ℕ) → p + n ≤ length msg → (bs : Bytes) × (bytes_at msg p n ≡ some bs) × (length bs ≡ n)
  bytes_at-length p n h =
      let fits : leb (p + n) (length msg) ≡ true = ground (arith, h) in
      (
        take n (drop p msg),
        rw fits refl,
        length-take_short n (drop p msg) (omega (arith, h, length-drop p msg)),
      )

  pub copy_bytes-Bounded :
      (w v size n : ℕ) (c : Cursor)
      → Inside msg w c
      → w + n ≤ v
      → v ≤ size
      → Bounded msg v (copy_bytes msg size n c)
  copy_bytes-Bounded w v size n c h sum room = elim (Bool-cases (ltb c.blcnt n)) [
    | inl z ↦ rw z (refused_format v)
    | inr z ↦
        let more : n ≤ c.blcnt = ground (arith, z) in
        let (bs, e, long) = bytes_at-length c.bptr n (omega (arith, h.there, more)) in
        let fits : leb (length c.db + n) size ≡ true = ground (arith, h.written, sum, room) in
        let parts = length-append c.db bs in
        rw (z, e, fits)
          (at-Bounded v _ (record {
            there = omega (arith, h.there, more);
            written = omega (arith, parts, long, sum, h.written);
          }))
  ]

  after_name-Bounded :
      (w size : ℕ) (c : Cursor) (r : Decompressed)
      → Inside msg w c
      → w + dnsnamebufsize ≤ size
      → Sound msg c.bptr c.blcnt r
      → Bounded msg (w + dnsnamebufsize) (after_name size c r)
  after_name-Bounded w size c (named used left nm) h room (hops, taken, few, r) =
      let fits : leb (length c.db + dnsnamebufsize) size ≡ true = ground (arith, h.written, room) in
      let parts = length-append c.db nm in
      rw fits (
        at-Bounded (w + dnsnamebufsize) _ (record {
          there = omega (arith, h.there, taken);
          written = omega (arith, parts, r.fits, h.written);
        }))
  after_name-Bounded w size c truncated h room s = refused_format (w + dnsnamebufsize)
  after_name-Bounded w size c (format r) h room s = refused_format (w + dnsnamebufsize)
  after_name-Bounded w size c fault h room s = absurd s
  after_name-Bounded w size c diverged h room s = absurd s

  pub copy_name-Bounded :
      (w size : ℕ) (c : Cursor)
      → Inside msg w c
      → w + dnsnamebufsize ≤ size
      → Bounded msg (w + dnsnamebufsize) (copy_name msg size c)
  unfolding copy_name
  copy_name-Bounded w size c h room =
      after_name-Bounded w size c _ h room (decompress_name-Sound msg c.bptr c.blcnt)

  pub no_junk-Bounded : (w : ℕ) (c : Cursor) → Inside msg w c → Bounded msg w (no_junk c)
  no_junk-Bounded w c h = if_Bounded _ (at-Bounded w c h) (refused_format w)

  name_then_end :
      (w size : ℕ) (c : Cursor)
      → Inside msg w c
      → w + dnsnamebufsize ≤ size
      → Bounded msg (w + dnsnamebufsize) (then_read (copy_name msg size c) no_junk)
  name_then_end w size c h room =
      then_read-Bounded _ _ _ no_junk (copy_name-Bounded w size c h room) (no_junk-Bounded _)

  pub bytes_name-Bounded :
      (n : ℕ) (c : Cursor) → Inside msg 0 c → Bounded msg (n + dnsnamebufsize) (bytes_name msg n c)
  bytes_name-Bounded n c h =
      then_read-Bounded n _ _ _
        (copy_bytes-Bounded 0 n (n + dnsnamebufsize) n c h (omega arith) (omega arith))
        (λ d k. name_then_end n (n + dnsnamebufsize) d k (omega arith))

  pub two_names-Bounded :
      (n m : ℕ) (c : Cursor)
      → Inside msg 0 c
      → Bounded msg (n + dnsnamebufsize + dnsnamebufsize + m) (two_names msg n m c)
  two_names-Bounded n m c h =
      let size = n + dnsnamebufsize + dnsnamebufsize + m in
      then_read-Bounded n size _ _ (copy_bytes-Bounded 0 n size n c h (omega arith) (omega arith))
        (λ d hd. then_read-Bounded _ size _ _ (copy_name-Bounded n size d hd (omega arith)) (λ e he.
          then_read-Bounded _ size _ _
            (copy_name-Bounded (n + dnsnamebufsize) size e he (omega arith))
            (λ f hf.
              then_read-Bounded size size _ no_junk
                (copy_bytes-Bounded (n + dnsnamebufsize + dnsnamebufsize) size size m f hf
                  (omega arith) (omega arith))
                (no_junk-Bounded size))))

  pub nxt-Bounded : (c : Cursor) → Inside msg 0 c → Bounded msg nxt_size (nxt msg c)
  nxt-Bounded c h =
      then_read-Bounded dnsnamebufsize nxt_size _ (nxt_rest msg)
        (copy_name-Bounded 0 nxt_size c h (omega arith))
        (λ d k. elim (Bool-cases (ltb nxt_size (length d.db + d.blcnt))) [
          | inl z ↦ rw (nxt_rest, z) (refused_format nxt_size)
          | inr z ↦
              rw (nxt_rest, z)
                (copy_bytes-Bounded (length d.db) nxt_size nxt_size d.blcnt d
                  (record { there = k.there; written = omega arith }) (ground (arith, z))
                  (omega arith))
        ])
