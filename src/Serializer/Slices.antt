-- ===== src/Serializer/Slices.antt =====
-- The two ways to read an array: as a stream, and by slices of it.
use blockcore_gateway.Common.{
  ℕ, [], ◌∷◌, ◌+◌, ◌<◌, ◌≤◌, ◌≡◌, ◌≢◌, refl, arith, length, take, drop, Option-cases, inl, inr,
  length-drop,
}
use blockcore_gateway.Dispatch.{MessageMaps, get_message_type}
use blockcore_gateway.Serializer.{
  Bytes, Codec, HeaderInfo, header_of, message, read_body, read_frame, deserialize, slice_message,
  deserialize_array,
}
use blockcore_gateway.Serializer.Framing.{header_at_once}

-- The header that stands behind the version.
abbrev pub header_in : Bytes → HeaderInfo
header_in bytes = header_of (take 8 (drop 2 bytes))

module _ {M : Type 0} (c : Codec M) (maps : MessageMaps) where
  slice_message-read_body :
      (h : HeaderInfo) (body : Bytes)
      → h.size ≤ length body
      → slice_message c maps h body ≡ (read_body c maps h body).0
  unfolding slice_message read_body
  slice_message-read_body h body fits = elim (Option-cases (get_message_type h.command maps)) [
    | inl e ↦ rw (e, slice_message, read_body) refl
    | inr (t, e) ↦ rw (e, slice_message, read_body) (ground arith)
  ]

  -- For an array that holds the whole message, with its ten bytes before the body, the two methods give the same, be
  -- it the message or an exception.
  pub deserialize_array-deserialize :
      (bytes : Bytes) (arrived : ℕ)
      → (header_in bytes).size + 10 ≤ length bytes
      → 8 ≤ arrived
      → deserialize_array c maps bytes ≡ (deserialize c maps arrived bytes).0
  unfolding deserialize_array deserialize read_frame
  deserialize_array-deserialize [] arrived fits there = absurd (omega arith)
  deserialize_array-deserialize (a ∷ []) arrived fits there = absurd (omega arith)
  deserialize_array-deserialize (a ∷ b ∷ s) arrived fits there =
      rw (header_at_once arrived there, read_frame)
        (ground (arith, slice_message-read_body (header_of (take 8 s)) (drop 8 s), length-drop 8 s))

  -- An array that does not hold the whole message gives none by slices, whatever its bytes are.
  pub deserialize_array-cut :
      (bytes : Bytes) (m : M)
      → length bytes < (header_in bytes).size + 10
      → deserialize_array c maps bytes ≢ message m
  unfolding deserialize_array slice_message
  deserialize_array-cut [] m cut e = cc
  deserialize_array-cut (a ∷ []) m cut e = cc
  deserialize_array-cut (a ∷ b ∷ s) m cut e = ground (arith, length-drop 8 s)
