-- ===== src/Worker/Ending.antt =====
-- The thread that serves a client ends, with the client closed, if the gateway knows it.
use blockcore_gateway.Common.{ℕ, ◌≡◌, Bool, false, some, List, [], ◌∷◌}
use blockcore_gateway.Dispatch.{MessageMaps}
use blockcore_gateway.Serializer.{Bytes, Codec}
use blockcore_gateway.Gateway.{Gateway, connected}
use blockcore_gateway.Gateway.Writing.{Outcome, and_then, try_disconnect}
use blockcore_gateway.Worker.{GatewayMessage, dispatch, serve}

module _ (write_fails : ℕ → Gateway → Bool) (c : Codec GatewayMessage) (maps : MessageMaps)
    (client arrived : ℕ) where
  -- Messages in their turn.
  abbrev pub take_all : List GatewayMessage → Gateway → Gateway
  take_all [] g = g
  take_all (m ∷ ms) g = take_all ms (dispatch write_fails c maps client m g).0

  -- One disconnection after another, if the first throws nothing.
  abbrev pub twice : Gateway → Outcome
  twice g = and_then (try_disconnect write_fails client g) (try_disconnect write_fails client)

  abbrev pub Ends : ℕ → Bytes → Gateway → Type 0
  Ends n bytes g =
      (ms : List GatewayMessage) × (serve write_fails c maps client n arrived bytes g
        ≡ some (twice (take_all ms g)))
      × (connected client (twice (take_all ms g)).0.opened ≡ false)
