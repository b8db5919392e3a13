-- ===== src/Relay/Tests.antt =====
-- A hub is told of two connections, and of one of them again.
use blockcore_gateway.Common.{String, List, [], ◌∷◌}
use blockcore_gateway.Peers.{new}
use blockcore_gateway.Relay.{Connection, Told, info, found_endpoint, relay}
use blockcore_gateway.Relay.InStep.{InStep}
use blockcore_gateway.Relay.Following.{relay-InStep}

abbrev connection : String → Connection
connection id = record { id = id; other = "" }

abbrev newer : String → String → String
newer old told = told

abbrev told : List Told
told =
    info (connection "a")
    ∷ info (connection "b")
    ∷ info (record { id = "a"; other = "again" })
    ∷ found_endpoint "b"
    ∷ []

relay-InStep_example : InStep (relay newer told [] new).0 (relay newer told [] new).1.peers
relay-InStep_example = relay-InStep newer told [] new (tt, (tt, (tt, (tt, tt)))) tt
