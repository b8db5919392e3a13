-- ===== src/Serializer.antt =====
-- Messages as bytes: src/Blockcore.Hub.Networking/MessageSerializer.cs and HeaderInfo.cs, on a machine whose
-- numbers have their lowest byte first.
pub mod Framing
pub mod Consuming
pub mod Slices
pub mod Listening
mod Tests
use blockcore_gateway.Common.{
  ℕ, String, Option, none, some, List, [], ◌∷◌, ◌++◌, ◌+◌, ◌*◌, ◌/◌, ◌%◌, ◌-◌, ◌<◌, ◌≡◌, ◌==◌, ltb,
  leb, if◌then◌else◌, length, take, drop, get_elem?,
}
use blockcore_gateway.Dispatch.{MessageMaps, get_message_type}

abbrev pub Bytes : Type 0
Bytes = List ℕ

-- MessagePack, with the command and the type that a message has: `unpack` reads the bytes of a message of a type;
-- `none` is an exception.
pub record Codec (M : Type 0) : Type 0 where
  pub command : M → ℕ
  pub type_of : M → String
  pub pack : M → Bytes
  pub unpack : String → Bytes → Option M

-- What MessagePack and .NET promise: a message is read back, and an array has fewer than 2 ^ 31 bytes. A command is a
-- ushort.
pub record IsFaithful {M : Type 0} (c : Codec M) : Type 0 where
  pub unpack-pack : (m : M) → c.unpack (c.type_of m) (c.pack m) ≡ some m
  pub pack_fits : (m : M) → length (c.pack m) < 2147483648
  pub command_fits : (m : M) → c.command m < 65536

-- `size` as its bit pattern: from 2 ^ 31 on it stands for a negative number.
pub record HeaderInfo : Type 0 where
  pub size : ℕ
  pub command : ℕ

abbrev pub u16_bytes : ℕ → Bytes
u16_bytes n = n % 256 ∷ n / 256 % 256 ∷ []

abbrev pub u32_bytes : ℕ → Bytes
u32_bytes n = n % 256 ∷ n / 256 % 256 ∷ n / 65536 % 256 ∷ n / 16777216 % 256 ∷ []

-- The struct in memory: its size is rounded up to 8 bytes, of which the last two, `p` and `q`, are no field's.
unfoldable pub header_bytes : ℕ → ℕ → HeaderInfo → Bytes
header_bytes p q h = u32_bytes h.size ++ (u16_bytes h.command ++ (p ∷ q ∷ []))

-- Byte `i` of the struct, which is zero before anything is read into it.
abbrev pub byte_at : Bytes → ℕ → ℕ
byte_at bs i = elim (get_elem? bs i) [ none ↦ 0 | some b ↦ b ]

unfoldable pub header_of : Bytes → HeaderInfo
header_of bs = record {
  size = byte_at bs 0 + 256 * byte_at bs 1 + 65536 * byte_at bs 2 + 16777216 * byte_at bs 3;
  command = byte_at bs 4 + 256 * byte_at bs 5;
}

-- How reading fails: the stream ends, an array is too short, or the exceptions of the code and of what it calls.
pub data ReadError : Type 0 where
  end_of_stream : ReadError
  out_of_range : ReadError
  invalid_version : ℕ → ReadError
  no_message_type : ℕ → ReadError
  not_unpacked : ReadError

pub data Reading (M : Type 0) : Type 0 where
  message : M → Reading M
  failed : ReadError → Reading M

module _ {M : Type 0} (c : Codec M) where
  -- `Serialize`, with the two bytes of the header that are no field's.
  unfoldable pub serialize : ℕ → ℕ → M → Bytes
  serialize p q m =
      u16_bytes 1
      ++ (header_bytes p q (record { size = length (c.pack m); command = c.command m }) ++ c.pack m)

  abbrev pub unpacked : String → Bytes → Reading M
  unpacked t bs = elim (c.unpack t bs) [ none ↦ failed not_unpacked | some m ↦ message m ]

  -- `Deserialize` of a stream behind the header: what it gives, and what is left of the stream. `ReadBytes` gives
  -- fewer bytes where the stream ends, and throws for a negative count.
  unfoldable pub read_body : MessageMaps → HeaderInfo → Bytes → Reading M × Bytes
  read_body maps h s = elim (get_message_type h.command maps) [
    | none ↦ (failed (no_message_type h.command), s)
    | some t ↦
        if ltb h.size 2147483648
        then (unpacked t (take h.size s), drop h.size s)
        else (failed out_of_range, s)
  ]

  -- The one `Read` of the header gives at most the `arrived` bytes that are there.
  unfoldable pub read_frame : MessageMaps → ℕ → Bytes → Reading M × Bytes
  read_frame maps arrived s =
      let k = if ltb arrived 8 then arrived else 8 in
      read_body maps (header_of (take k s)) (drop k s)

  -- `Deserialize` of a stream.
  unfoldable pub deserialize : MessageMaps → ℕ → Bytes → Reading M × Bytes
  deserialize maps arrived [] = (failed end_of_stream, [])
  deserialize maps arrived (a ∷ []) = (failed end_of_stream, [])
  deserialize maps arrived (a ∷ b ∷ s) =
      let version = a + 256 * b in
      if version == 1 then read_frame maps arrived s else (failed (invalid_version version), s)

  -- `Deserialize<T>` of an array, behind the version.
  unfoldable pub slice_message : MessageMaps → HeaderInfo → Bytes → Reading M
  slice_message maps h body = elim (get_message_type h.command maps) [
    | none ↦ failed (no_message_type h.command)
    | some t ↦
        if ltb h.size 2147483648
        then if leb h.size (length body) then unpacked t (take h.size body) else failed out_of_range
        else failed out_of_range
  ]

  -- `Deserialize<T>` of an array, which does not use `T`.
  unfoldable pub deserialize_array : MessageMaps → Bytes → Reading M
  deserialize_array maps [] = failed out_of_range
  deserialize_array maps (a ∷ []) = failed out_of_range
  deserialize_array maps (a ∷ b ∷ s) =
      let version = a + 256 * b in
      if version == 1
      then if leb 8 (length s)
        then slice_message maps (header_of (take 8 s)) (drop 8 s)
        else failed out_of_range
      else failed (invalid_version version)
