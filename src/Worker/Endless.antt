-- ===== src/Worker/Endless.antt =====
-- A client that the gateway does not know.
use blockcore_gateway.Common.{ℕ, Bool, zero, suc, ◌≡◌, refl, true, none, []}
use blockcore_gateway.Dispatch.{MessageMaps}
use blockcore_gateway.Serializer.{Codec, deserialize}
use blockcore_gateway.Gateway.{Gateway, get_connection, connected}
use blockcore_gateway.Gateway.Disconnecting.{uses, get_connection-uses}
use blockcore_gateway.Gateway.Writing.{try_disconnect}
use blockcore_gateway.Worker.{GatewayMessage, serve_reading, serve}

disconnect-unknown :
    (write_fails : ℕ → Gateway → Bool) (c : ℕ) (g : Gateway)
    → get_connection c g.connections ≡ none
    → try_disconnect write_fails c g ≡ (g, none)
unfolding try_disconnect
disconnect-unknown w c g e = rw (e, try_disconnect) refl

-- When a client that no connection has ends its stream, the thread that serves it does not end: the client is not
-- closed, and each further round fails at the end of the stream again.
pub serve-endless :
    (write_fails : ℕ → Gateway → Bool) (c : Codec GatewayMessage) (maps : MessageMaps)
    (client arrived n : ℕ) (g : Gateway)
    → connected client g.opened ≡ true
    → uses client g.connections ≡ 0
    → serve write_fails c maps client n arrived [] g ≡ none
unfolding serve serve_reading deserialize
serve-endless w c maps client arrived zero g still none_has = refl
serve-endless w c maps client arrived (suc n) g still none_has =
    rw (still, disconnect-unknown w client g (get_connection-uses client g.connections none_has))
      (serve-endless w c maps client arrived n g still none_has)
