-- ===== src/Serializer/Listening.antt =====
-- A hub that reads the messages of a stream and hands them to their handlers: `ListenTCP` of
-- src/Blockcore.Hub.Networking/Managers/HubManager.cs.
use mathlib.Core.List.{append_assoc}
use blockcore_gateway.Common.{
  ℕ, zero, suc, Option, some, List, [], ◌∷◌, ◌++◌, ◌≤◌, ◌≡◌, refl, ap, ◌∙◌, All, length,
}
use blockcore_gateway.Dispatch.{Handler, MessageMaps, build, process}
use blockcore_gateway.Dispatch.Registration.{handlers_for}
use blockcore_gateway.Dispatch.Processing.{run_in_order, process-build}
use blockcore_gateway.Dispatch.Types.{first_type, get_message_type-build}
use blockcore_gateway.Serializer.{
  Bytes, Codec, IsFaithful, Reading, message, failed, serialize, deserialize,
}
use blockcore_gateway.Serializer.Framing.{deserialize-serialize}

-- `call m` are the handlers on the message `m`.
module _ {M S E : Type 0} (c : Codec M) (call : M → Handler → S → S × Option E) where
  -- An exception is logged, of the reading or of a handler.
  unfoldable pub handle_reading : MessageMaps → Reading M → S → S
  handle_reading maps (failed e) s = s
  handle_reading maps (message m) s = (process (call m) maps (some (c.command m)) s).0

  -- So many rounds of the loop, on what is sent; each finds as many bytes of the header as `arrived` says.
  unfoldable pub listen_tcp : ℕ → MessageMaps → ℕ → Bytes → S → Bytes × S
  listen_tcp zero maps arrived bytes s = (bytes, s)
  listen_tcp (suc n) maps arrived bytes s =
      let (r, rest) = deserialize c maps arrived bytes in
      listen_tcp n maps arrived rest (handle_reading maps r s)

  abbrev pub frames : ℕ → ℕ → List M → Bytes
  frames p q [] = []
  frames p q (m ∷ ms) = serialize c p q m ++ frames p q ms

  -- Each message in its turn reaches the handlers that were registered for its command.
  abbrev pub handled : List Handler → List M → S → S
  handled hs [] s = s
  handled hs (m ∷ ms) s =
      handled hs ms (run_in_order (call m) (c.command m) (handlers_for (c.command m) hs) s).0

  handle_reading-build :
      (hs : List Handler) (m : M) (s : S)
      → handle_reading (build [] hs) (message m) s
        ≡ (run_in_order (call m) (c.command m) (handlers_for (c.command m) hs) s).0
  unfolding handle_reading
  handle_reading-build hs m s = ap (λ r. r.0) (process-build (call m) hs (c.command m) s)

  -- What was written, one message behind the other, is read in as many rounds: every message reaches the handlers
  -- that were registered for its command, in its turn, whether they throw or not, and what follows is left. The first
  -- handler of each command has to be one for the type of its messages, and the eight bytes of each header have to be there
  -- when it is read.
  pub listen_tcp-frames :
      IsFaithful c
      → (hs : List Handler) (p q arrived : ℕ) (ms : List M) (rest : Bytes) (s : S)
      → All (λ m. first_type (handlers_for (c.command m) hs) ≡ some (c.type_of m)) ms
      → 8 ≤ arrived
      → listen_tcp (length ms) (build [] hs) arrived (frames p q ms ++ rest) s
        ≡ (rest, handled hs ms s)
  unfolding listen_tcp
  listen_tcp-frames good hs p q arrived [] rest s known there = refl
  listen_tcp-frames good hs p q arrived (m ∷ ms) rest s (k, ks) there =
      let maps = build [] hs in
      let read : deserialize c maps arrived ((serialize c p q m ++ frames p q ms) ++ rest)
          ≡ (message m, frames p q ms ++ rest) =
        ap (deserialize c maps arrived) (append_assoc (serialize c p q m) (frames p q ms) rest)
        ∙ deserialize-serialize c good maps p q m (frames p q ms ++ rest) arrived
            (get_message_type-build (c.command m) hs ∙ k) there in
      ap
        (λ (r : Reading M × Bytes).
          listen_tcp (length ms) maps arrived r.1 (handle_reading maps r.0 s))
        read
      ∙ ap (listen_tcp (length ms) maps arrived (frames p q ms ++ rest))
          (handle_reading-build hs m s)
      ∙ listen_tcp-frames good hs p q arrived ms rest _ ks there
