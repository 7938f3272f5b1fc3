-- ===== src/Reply/Transcribed.antt =====
-- What is stored of a record is what the message says, and what is refused is not to be stored.
use tor_android_service_arch.Message.Decompress.{Decompressed, named, decompress_name}
use tor_android_service_arch.Names.{Bytes}
use tor_android_service_arch.Prelude.{ℕ, ◌+◌, ◌-◌, ◌≤◌, ◌≡◌, ◌++◌, take, drop}
use tor_android_service_arch.Reply.Rdata.{
  Cursor, Reading, at, refused, faulted, Layout, fixed, with_name, with_names, as_is,
}
use tor_android_service_arch.Reply.Bounded.{Bounded}

-- Something has the property, or, where it is refused, nothing has it.
abbrev pub Exactly : (Cursor → Type 0) → Reading → Type 0
Exactly P (at c) = P c
Exactly P (refused rc) = ¬ ((c : Cursor) × P c)
Exactly P faulted = Unit

-- One cursor at most has the property.
abbrev Only : (Cursor → Type 0) → Type 0
Only P = (c d : Cursor) → P c → P d → d ≡ c

-- One step and then another.
abbrev pub Then : (Cursor → Type 0) → (Cursor → Cursor → Type 0) → Cursor → Type 0
Then P R e = (d : Cursor) × (P d × R d e)

module _ (msg : Bytes) where
  -- The next `n` bytes are there and are taken.
  abbrev pub Copied : (n : ℕ) → Cursor → Cursor → Type 0
  Copied n c d =
      (n ≤ c.blcnt)
      × (d ≡ record {
        bptr = c.bptr + n;
        blcnt = c.blcnt - n;
        db = c.db ++ take n (drop c.bptr msg);
      })

  -- The next name decompresses to `nm`, which takes `used` bytes of the message.
  abbrev pub Named : Cursor → (used left : ℕ) (nm : Bytes) → Cursor → Type 0
  Named c used left nm d =
      (decompress_name msg c.bptr c.blcnt ≡ named used left nm)
      × (d ≡ record { bptr = c.bptr + used; blcnt = left; db = c.db ++ nm })

  abbrev pub SomeName : Cursor → Cursor → Type 0
  SomeName c d = (used : ℕ) × (left : ℕ) × (nm : Bytes) × Named c used left nm d

  -- A result that is no name.
  abbrev IsNamed : Decompressed → Type 0
  IsNamed (named used left nm) = Unit
  IsNamed _ = ⊥

  -- Where a name leads.
  behind : Cursor → Decompressed → Cursor
  behind c (named used left nm) = record { bptr = c.bptr + used; blcnt = left; db = c.db ++ nm }
  behind c _ = c

  -- The data end here.
  abbrev pub Ended : Cursor → Cursor → Type 0
  Ended c d = (c.blcnt ≡ 0) × (d ≡ c)

  -- The data at a cursor, by their layout: bytes, names that decompress, bytes, and nothing behind
  -- them.
  abbrev pub Data : Layout → Cursor → Cursor → Type 0
  Data (fixed k) c d = (c.blcnt ≡ k) × (d.db ≡ take k (drop c.bptr msg))
  Data (with_name k) c d = Then (Copied k c) (λ e. Then (SomeName e) Ended) d
  Data (with_names k m) c d =
      Then (Copied k c)
        (λ e. Then (SomeName e) (λ f. Then (SomeName f) (λ g. Then (Copied m g) Ended))) d
  Data as_is c d = d.db ≡ take c.blcnt (drop c.bptr msg)
  Data _ c d = Unit

  -- What becomes of the data of a layout that has no text strings, no bit map and no gateway.
  abbrev pub Transcribed : Layout → Cursor → Reading → Type 0
  Transcribed (fixed k) c r = Exactly (Data (fixed k) c) r
  Transcribed (with_name k) c r = Exactly (Data (with_name k) c) r
  Transcribed (with_names k m) c r = Exactly (Data (with_names k m) c) r
  Transcribed as_is c r = Exactly (Data as_is c) r
  Transcribed _ c r = Unit
