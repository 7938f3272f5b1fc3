-- ===== src/Reply/Rdata.antt =====
-- The data of a record as `rrs2cent` stores it (dns_query.c, the `switch(type)`): names are
-- decompressed into the buffer `db`.
use tor_android_service_arch.Message.Decompress.{
  Decompressed, named, truncated, format, fault, diverged, decompress_name,
}
use tor_android_service_arch.Names.{Bytes, dnsnamebufsize, isnormalencdomname}
use tor_android_service_arch.Prelude.{
  ℕ, zero, suc, ◌+◌, ◌-◌, ◌*◌, Bool, ◌||◌, ltb, leb, ◌==◌, if◌then◌else◌, [], ◌++◌, Option, none,
  some, length, take, drop, get_elem?,
}
use tor_android_service_arch.Query.{rc_format, rc_fatalerr}
use tor_android_service_arch.Reply.{t_soa}

-- `bptr`, `blcnt`, and what is written to `db`.
pub record Cursor : Type 0 where
  pub bptr : ℕ
  pub blcnt : ℕ
  pub db : Bytes

-- `refused` is a return with that code; the labels trailing_junk, record_too_short, buffer_overflow and
-- invalid_length are one with RC_FORMAT.
pub data Reading : Type 0 where
  at : Cursor → Reading
  refused : (rc : ℕ) → Reading
  faulted : Reading

abbrev pub then_read : Reading → (Cursor → Reading) → Reading
then_read (at c) f = f c
then_read (refused rc) f = refused rc
then_read faulted f = faulted

-- `n` bytes from `p` on; `none` is a read behind the message.
abbrev pub bytes_at : Bytes → (p n : ℕ) → Option Bytes
bytes_at msg p n = if leb (p + n) (length msg) then some (take n (drop p msg)) else none

-- `memcpy` of `n` bytes from `bptr` to the end of what is written, in a buffer of `size` bytes.
abbrev pub appended_bytes : (size n : ℕ) → Cursor → Option Bytes → Reading
appended_bytes size n c none = faulted
appended_bytes size n c (some bs) =
    if leb (length c.db + n) size
    then at (record { bptr = c.bptr + n; blcnt = c.blcnt - n; db = c.db ++ bs })
    else faulted

-- A name may take DNSNAMEBUFSIZE bytes of the buffer.
abbrev pub after_name : (size : ℕ) → Cursor → Decompressed → Reading
after_name size c (named used left nm) =
    if leb (length c.db + dnsnamebufsize) size
    then at (record { bptr = c.bptr + used; blcnt = left; db = c.db ++ nm })
    else faulted
after_name size c truncated = refused rc_format
after_name size c (format r) = refused rc_format
after_name size c fault = faulted
after_name size c diverged = faulted

abbrev pub no_junk : Cursor → Reading
no_junk c = if c.blcnt == 0 then at c else refused rc_format

abbrev pub nxt_size : ℕ
nxt_size = 1040

abbrev pub naptr_size : ℕ
naptr_size = 4 + 3 * 256 + dnsnamebufsize

module _ (msg : Bytes) where
  abbrev pub copy_bytes : (size n : ℕ) → Cursor → Reading
  copy_bytes size n c =
      if ltb c.blcnt n then refused rc_format else appended_bytes size n c (bytes_at msg c.bptr n)

  unfoldable pub copy_name : (size : ℕ) → Cursor → Reading
  unfolding decompress_name
  copy_name size c = after_name size c (decompress_name msg c.bptr c.blcnt)

  -- `n` bytes and one name (`n` is 0, 2 and 6), with nothing behind it.
  abbrev pub bytes_name : (n : ℕ) → Cursor → Reading
  bytes_name n c =
      then_read (copy_bytes (n + dnsnamebufsize) n c)
        (λ d. then_read (copy_name (n + dnsnamebufsize) d) no_junk)

  -- `n` bytes, two names and `m` bytes (T_MINFO, T_RP, T_PX and T_SOA).
  abbrev pub two_names : (n m : ℕ) → Cursor → Reading
  two_names n m c =
      let size = n + dnsnamebufsize + dnsnamebufsize + m in
      then_read (copy_bytes size n c) (λ d.
        then_read (copy_name size d)
          (λ e. then_read (copy_name size e) (λ f. then_read (copy_bytes size m f) no_junk)))

  abbrev pub nxt_rest : Cursor → Reading
  nxt_rest c =
      if ltb nxt_size (length c.db + c.blcnt)
      then refused rc_format
      else copy_bytes nxt_size c.blcnt c

  -- T_NXT
  abbrev pub nxt : Cursor → Reading
  nxt c = then_read (copy_name nxt_size c) nxt_rest

  -- The loop over the text strings: the bytes to copy. `next` is the rest of it.
  abbrev pub naptr_string : (next : ℕ → Reading) → (len blcnt : ℕ) → Option ℕ → Reading
  naptr_string next len blcnt lb =
      if leb blcnt len
      then refused rc_format
      else elim lb [ none ↦ faulted | some b ↦ next (len + (b + 1)) ]

  unfoldable pub naptr_strings : (left len : ℕ) → Cursor → Reading
  naptr_strings zero len c =
      then_read (copy_bytes naptr_size len c) (λ d. then_read (copy_name naptr_size d) no_junk)
  naptr_strings (suc left) len c =
      naptr_string (λ n. naptr_strings left n c) len c.blcnt (get_elem? msg (c.bptr + len))

  -- A record taken as it is.
  abbrev pub default_case : (ptr rdlength : ℕ) → Reading
  default_case ptr rdlength = elim (bytes_at msg ptr rdlength) [
    | none ↦ faulted
    | some bs ↦ at (record { bptr = ptr + rdlength; blcnt = 0; db = bs })
  ]

  -- `rbuf` holds the first bytes of the record, the name and the rest.
  abbrev pub into_rbuf : (allocated : Bool) (ptr n : ℕ) → Cursor → Reading
  into_rbuf allocated ptr n c =
      if allocated
      then elim (bytes_at msg ptr n) [
        | none ↦ faulted
        | some head ↦ elim (bytes_at msg c.bptr c.blcnt) [
          | none ↦ faulted
          | some rest ↦
              at (record { bptr = c.bptr + c.blcnt; blcnt = 0; db = head ++ (c.db ++ rest) })
        ]
      ]
      else refused rc_fatalerr

  -- A name behind `n` bytes, which should not be compressed.
  abbrev pub plain_name : (allocated : Bool) (ptr rdlength n : ℕ) → (normal : Option Bool) → Reading
  plain_name allocated ptr rdlength n none = faulted
  plain_name allocated ptr rdlength n (some normal) =
      if normal
      then default_case ptr rdlength
      else then_read
          (copy_name dnsnamebufsize (record { bptr = ptr + n; blcnt = rdlength - n; db = [] }))
          (into_rbuf allocated ptr n)

  -- T_RRSIG and T_NSEC, where `n` is 18 and 0
  unfoldable pub name_behind : (allocated : Bool) (ptr rdlength n : ℕ) → Reading
  unfolding copy_name isnormalencdomname
  name_behind allocated ptr rdlength n =
      if ltb rdlength n
      then refused rc_format
      else plain_name allocated ptr rdlength n
          (isnormalencdomname (drop (ptr + n) msg) (rdlength - n))

  abbrev pub gateway : (allocated : Bool) (ptr rdlength : ℕ) → Option ℕ → Reading
  gateway allocated ptr rdlength none = faulted
  gateway allocated ptr rdlength (some gwtp) =
      if gwtp == 0
      then default_case ptr rdlength
      else if gwtp == 1
      then (if ltb (rdlength - 3) 4 then refused rc_format else default_case ptr rdlength)
      else if gwtp == 2
      then (if ltb (rdlength - 3) 16 then refused rc_format else default_case ptr rdlength)
      else if gwtp == 3
      then plain_name allocated ptr rdlength 3
          (isnormalencdomname (drop (ptr + 3) msg) (rdlength - 3))
      else refused rc_format

  unfoldable pub ipseckey : (allocated : Bool) (ptr rdlength : ℕ) → Reading
  unfolding copy_name isnormalencdomname
  ipseckey allocated ptr rdlength =
      if ltb rdlength 3
      then refused rc_format
      else gateway allocated ptr rdlength (get_elem? msg (ptr + 1))

-- The cases of the switch.
pub data Layout : Type 0 where
  fixed : (rdlength : ℕ) → Layout
  with_name : (n : ℕ) → Layout
  with_names : (n m : ℕ) → Layout
  with_bitmap with_strings with_gateway as_is : Layout
  with_plain_name : (n : ℕ) → Layout

-- T_CNAME, T_MB, T_MD, T_MF, T_MG, T_MR, T_NS, T_PTR
abbrev pub is_name_type : ℕ → Bool
is_name_type t =
    (t == 5)
    || ((t == 7) || ((t == 3) || ((t == 4) || ((t == 8) || ((t == 9) || ((t == 2) || (t == 12)))))))

-- T_MX, T_AFSDB, T_RT, T_KX
abbrev pub is_preference_type : ℕ → Bool
is_preference_type t = (t == 15) || ((t == 18) || ((t == 21) || (t == 36)))

unfoldable pub layout_of : ℕ → Layout
layout_of t =
    if t == 1
    then fixed 4
    else if is_name_type t
    then with_name 0
    else if (t == 14) || (t == 17)
    then with_names 0 0
    else if is_preference_type t
    then with_name 2
    else if t == t_soa
    then with_names 0 20
    else if t == 28
    then fixed 16
    else if t == 26
    then with_names 2 0
    else if t == 33
    then with_name 6
    else if t == 30
    then with_bitmap
    else if t == 35
    then with_strings
    else if t == 45
    then with_gateway
    else if t == 46
    then with_plain_name 18
    else if t == 47
    then with_plain_name 0
    else as_is

abbrev pub read_layout : (msg : Bytes) → (allocated : Bool) (ptr rdlength : ℕ) → Layout → Reading
read_layout msg al ptr n (fixed k) = if n == k then default_case msg ptr n else refused rc_format
read_layout msg al ptr n (with_name k) =
    bytes_name msg k (record { bptr = ptr; blcnt = n; db = [] })
read_layout msg al ptr n (with_names k m) =
    two_names msg k m (record { bptr = ptr; blcnt = n; db = [] })
read_layout msg al ptr n with_bitmap = nxt msg (record { bptr = ptr; blcnt = n; db = [] })
read_layout msg al ptr n with_strings =
    naptr_strings msg 3 4 (record { bptr = ptr; blcnt = n; db = [] })
read_layout msg al ptr n with_gateway = ipseckey msg al ptr n
read_layout msg al ptr n as_is = default_case msg ptr n
read_layout msg al ptr n (with_plain_name k) = name_behind msg al ptr n k

unfoldable pub rdata_of : (msg : Bytes) → (allocated : Bool) (ptr rdlength type : ℕ) → Reading
unfolding layout_of copy_name naptr_strings name_behind ipseckey
rdata_of msg al ptr rdlength type = read_layout msg al ptr rdlength (layout_of type)
