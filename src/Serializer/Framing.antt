-- ===== src/Serializer/Framing.antt =====
-- What is read of a message that was written.
use blockcore_gateway.Common.{
  ℕ, String, none, some, [], ◌∷◌, ◌++◌, ◌<◌, ◌≤◌, ◌≡◌, refl, arith, length, ap, ◌∙◌, take-append,
  drop-append, ltb, if◌then◌else◌, lt→ltb,
}
use mathlib.Core.List.{append_assoc}
use blockcore_gateway.Dispatch.{MessageMaps, get_message_type}
use blockcore_gateway.Serializer.{
  Bytes, Codec, IsFaithful, HeaderInfo, header_bytes, header_of, no_message_type, message, failed,
  serialize, unpacked, u16_bytes, read_body, read_frame, deserialize,
}

header_of-bytes :
    (p q : ℕ) (h : HeaderInfo)
    → h.size < 4294967296
    → h.command < 65536
    → header_of (header_bytes p q h) ≡ h
unfolding header_of header_bytes
header_of-bytes p q h x y = ground arith

pub header_at_once : (n : ℕ) → 8 ≤ n → (if ltb n 8 then n else 8) ≡ 8
header_at_once n h = ground arith

module _ {M : Type 0} (c : Codec M) (good : IsFaithful c) (maps : MessageMaps) where
  read_frame-header :
      (p q : ℕ) (h : HeaderInfo) (s : Bytes) (arrived : ℕ)
      → h.size < 4294967296
      → h.command < 65536
      → 8 ≤ arrived
      → read_frame c maps arrived (header_bytes p q h ++ s) ≡ read_body c maps h s
  unfolding read_frame header_bytes
  read_frame-header p q h s arrived x y there =
      rw (header_at_once arrived there, read_frame)
        (ap (λ g. read_body c maps g s) (header_of-bytes p q h x y))

  -- The header of a message is read as it was written.
  deserialize-header :
      (p q : ℕ) (m : M) (rest : Bytes) (arrived : ℕ)
      → 8 ≤ arrived
      → deserialize c maps arrived (serialize c p q m ++ rest)
        ≡ read_body c maps
            (record { size = length (c.pack m); command = c.command m })
            (c.pack m ++ rest)
  unfolding deserialize serialize
  deserialize-header p q m rest arrived there =
      let h : HeaderInfo = record { size = length (c.pack m); command = c.command m } in
      ap (read_frame c maps arrived) (append_assoc (header_bytes p q h) (c.pack m) rest)
      ∙ read_frame-header p q h (c.pack m ++ rest) arrived (omega (arith, good.pack_fits m))
          (good.command_fits m) there

  unpacked-some :
      (t : String) (bs : Bytes) (m : M) → c.unpack t bs ≡ some m → unpacked c t bs ≡ message m
  unpacked-some t bs m e = ground (arith, e)

  read_body-pack :
      (m : M) (rest : Bytes)
      → get_message_type (c.command m) maps ≡ some (c.type_of m)
      → read_body c maps
          (record { size = length (c.pack m); command = c.command m })
          (c.pack m ++ rest)
        ≡ (message m, rest)
  unfolding read_body
  read_body-pack m rest known =
      rw
        (
          known,
          read_body,
          lt→ltb (length (c.pack m)) 2147483648 (good.pack_fits m),
          take-append (c.pack m) rest,
          drop-append (c.pack m) rest,
        )
        (ap (λ r. (r, rest)) (unpacked-some (c.type_of m) (c.pack m) m (good.unpack-pack m)))

  -- A message that was written is read back, and what follows it is left, whatever stands in the two bytes of the header
  -- that are no field's; if its command has its type registered, and the bytes of the header are there at once.
  pub deserialize-serialize :
      (p q : ℕ) (m : M) (rest : Bytes) (arrived : ℕ)
      → get_message_type (c.command m) maps ≡ some (c.type_of m)
      → 8 ≤ arrived
      → deserialize c maps arrived (serialize c p q m ++ rest) ≡ (message m, rest)
  deserialize-serialize p q m rest arrived known there =
      deserialize-header p q m rest arrived there ∙ read_body-pack m rest known

  read_body-unregistered :
      (h : HeaderInfo) (s : Bytes)
      → get_message_type h.command maps ≡ none
      → read_body c maps h s ≡ (failed (no_message_type h.command), s)
  unfolding read_body
  read_body-unregistered h s unknown = rw (unknown, read_body) refl

  -- A message with a command that has no type registered, whose header is there as a whole when it is read, throws, and
  -- only its header is taken off the stream: the next thing that is read from it begins inside this message.
  pub deserialize-unregistered :
      (p q : ℕ) (m : M) (rest : Bytes) (arrived : ℕ)
      → get_message_type (c.command m) maps ≡ none
      → 8 ≤ arrived
      → deserialize c maps arrived (serialize c p q m ++ rest)
        ≡ (failed (no_message_type (c.command m)), c.pack m ++ rest)
  deserialize-unregistered p q m rest arrived unknown there =
      deserialize-header p q m rest arrived there
      ∙ read_body-unregistered _ (c.pack m ++ rest) unknown

-- Where the four bytes of the size arrive alone, the command is taken to be 0, an acknowledgement, and the size
-- to be the right one: whatever was sent, the message is looked for four bytes too early.
deserialize-split :
    {M : Type 0} (c : Codec M) (maps : MessageMaps) (p q : ℕ) (m : M) (rest : Bytes)
    → length (c.pack m) < 2147483648
    → deserialize c maps 4 (serialize c p q m ++ rest)
      ≡ read_body c maps
          (record { size = length (c.pack m); command = 0 })
          (u16_bytes (c.command m) ++ (p ∷ q ∷ []) ++ (c.pack m ++ rest))
unfolding deserialize serialize read_frame header_bytes header_of
deserialize-split c maps p q m rest fits =
    ap
      (λ n.
        read_body c maps (record { size = n; command = 0 })
          (u16_bytes (c.command m) ++ (p ∷ q ∷ []) ++ (c.pack m ++ rest)))
      (omega arith)
