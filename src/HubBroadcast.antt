-- ===== src/HubBroadcast.antt =====
-- Broadcasts by way of the gateway: BroadcastToHubsRelayed and BroadcastToGateways of
-- src/Blockcore.Hub.Networking/Hubs/WebSocketHub.cs, which the client calls, and
-- Handlers/GatewayHandlers/BroadcastMessageGatewayHandler.cs. A hub that gets one only prints it.
pub mod Spreading
mod Tests
use blockcore_gateway.Common.{String, Bool, true, false, List, [], ◌∷◌, str_eq, if◌then◌else◌}
use blockcore_gateway.Gateway.{
  Broadcast, Entity, broadcast, Gateway, send_all_tcp, get_broadcast_connections,
}

-- By the id of the local hub.
unfoldable pub relayed_broadcast : String → String → Broadcast
relayed_broadcast local_id content = record {
  id = local_id;
  from = local_id;
  recipients = "HUB";
  content = content;
}

unfoldable pub gateway_broadcast : String → String → Broadcast
gateway_broadcast local_id content = record {
  id = local_id;
  from = local_id;
  recipients = "GATEWAY";
  content = content;
}

-- The handler of the gateway.
unfoldable pub process_broadcast : Broadcast → Gateway → Gateway
process_broadcast m g =
    if str_eq m.recipients "HUB"
    then send_all_tcp (broadcast m) (get_broadcast_connections false g.connections) g
    else g
