-- ===== src/Serializer/Consuming.antt =====
-- How much of a stream a message takes.
use blockcore_gateway.Common.{
  ℕ, ◌+◌, ◌*◌, ◌≤◌, ◌≡◌, refl, [], ◌∷◌, if◌then◌else◌, ◌==◌, ltb, arith, length, take, drop,
  length-drop, Bool-cases, Option-cases, inl, inr, ◌⊎◌,
}
use blockcore_gateway.Dispatch.{MessageMaps, get_message_type}
use blockcore_gateway.Serializer.{
  Bytes, Codec, HeaderInfo, header_of, ReadError, Reading, message, failed, read_body, read_frame,
  deserialize,
}

pub Reading-cases :
    {M : Type 0} (r : Reading M) → ((m : M) × (r ≡ message m)) ⊎ ((e : ReadError) × (r ≡ failed e))
Reading-cases (message m) = inl (m, refl)
Reading-cases (failed e) = inr (e, refl)

module _ {M : Type 0} (c : Codec M) (maps : MessageMaps) where
  read_body-rest : (h : HeaderInfo) (s : Bytes) → length (read_body c maps h s).1 ≤ length s
  unfolding read_body
  read_body-rest h s = elim (Option-cases (get_message_type h.command maps)) [
    | inl e ↦ rw (e, read_body) (omega arith)
    | inr (t, e) ↦ elim (Bool-cases (ltb h.size 2147483648)) [
      | inl l ↦ rw (e, l, read_body) (omega (arith, length-drop h.size s))
      | inr l ↦ rw (e, l, read_body) (omega arith)
    ]
  ]

  -- A message is at least two bytes long.
  pub deserialize-rest :
      (arrived : ℕ) (bytes : Bytes) (m : M)
      → (deserialize c maps arrived bytes).0 ≡ message m
      → length (deserialize c maps arrived bytes).1 + 2 ≤ length bytes
  unfolding deserialize read_frame
  deserialize-rest arrived [] m e = cc
  deserialize-rest arrived (a ∷ []) m e = cc
  deserialize-rest arrived (a ∷ b ∷ s) m e = elim (Bool-cases ((a + 256 * b) == 1)) [
    | inl v ↦
        let k = if ltb arrived 8 then arrived else 8 in
        rw (v, deserialize)
          (omega (arith, length-drop k s, read_body-rest (header_of (take k s)) (drop k s)))
    | inr v ↦ rw (v, deserialize) (omega arith)
  ]
