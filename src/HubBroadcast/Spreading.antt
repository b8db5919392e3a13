-- ===== src/HubBroadcast/Spreading.antt =====
-- Who gets a broadcast of the client.
use blockcore_gateway.Common.{String, ◌≡◌, refl, ◌++◌}
use blockcore_gateway.Gateway.{broadcast, Gateway, get_broadcast_connections}
use blockcore_gateway.Gateway.Sending.{receivers, send_all_tcp-all}
use blockcore_gateway.HubBroadcast.{relayed_broadcast, gateway_broadcast, process_broadcast}

-- A broadcast to hubs is passed on to the clients of all connections that are connected, once for each connection and
-- in their order, and nothing else changes; one to gateways changes nothing. The hub that sent it gets it back, if its own
-- connection is among them, which the comment on BroadcastMessage denies.
pub process_broadcast-receivers :
    (local_id content : String) (g : Gateway)
    → (process_broadcast (relayed_broadcast local_id content) g ≡ record g {
      sent_tcp =
          g.sent_tcp
          ++ receivers g.opened (broadcast (relayed_broadcast local_id content)) g.connections;
    })
      × (process_broadcast (gateway_broadcast local_id content) g ≡ g)
unfolding process_broadcast relayed_broadcast gateway_broadcast get_broadcast_connections
process_broadcast-receivers local_id content g = (send_all_tcp-all _ g.connections g, refl)
