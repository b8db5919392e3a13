-- ===== src/GatewayLink/Retrying.antt =====
-- The attempts to connect to the gateway, until one succeeds.
use mathlib.Core.List.{append_assoc}
use blockcore_gateway.Common.{
  String, true, false, ◌≡◌, refl, ap, ◌∙◌, List, [], ◌∷◌, ◌++◌, map, All, suc,
}
use blockcore_gateway.GatewayLink.{
  ConnectAttempt, no_adapter, refused, accepted, simplified_info, local_hub_info, gateway_connected,
  gateway_error, HubLink, round, send_message_tcp, connect_gateway, retry_round, take_action, run,
}

abbrev pub Fails : ConnectAttempt → Type 0
Fails no_adapter = Unit
Fails refused = Unit
Fails (accepted still) = ⊥

retry_round-Fails :
    (a : ConnectAttempt) (s : HubLink)
    → Fails a
    → s.connected_to_gateway ≡ false
    → let t = retry_round a s in
      (t.connected_to_gateway ≡ false)
      × (t.events ≡ s.events ++ gateway_error ∷ [])
      × (t.sent ≡ s.sent)
      × (t.keep_alives ≡ s.keep_alives)
      × (t.connections ≡ s.connections)
unfolding retry_round connect_gateway
retry_round-Fails no_adapter s u n = rw (n) (refl, refl, refl, refl, refl)
retry_round-Fails refused s u n = rw (n) (refl, refl, refl, refl, refl)
retry_round-Fails (accepted still) s u n = elim u [ ]

module _ (merge : String → String → String) where
  -- However many attempts fail, the first one that succeeds connects the hub: it listens, has told the gateway of itself
  -- once by each protocol, one keep-alive thread more runs, the connections are kept, and each failure was announced,
  -- then the connection.
  pub run-connected :
      (fs : List ConnectAttempt) (s : HubLink)
      → All Fails fs
      → s.connected_to_gateway ≡ false
      → let t = run merge (map round fs ++ round (accepted true) ∷ []) s in
        (t.tcp_connected ≡ true)
        × (t.tcp_listen ≡ true)
        × (t.udp_listen ≡ true)
        × (t.sent ≡ s.sent ++ simplified_info ∷ local_hub_info ∷ [])
        × (t.keep_alives ≡ suc s.keep_alives)
        × (t.connections ≡ s.connections)
        × (t.events ≡ s.events ++ (map (λ f. gateway_error) fs ++ gateway_connected ∷ []))
  unfolding run take_action retry_round connect_gateway send_message_tcp
  run-connected [] s u n = rw (n) (
    refl,
    refl,
    refl,
    append_assoc s.sent (simplified_info ∷ []) (local_hub_info ∷ []),
    refl,
    refl,
    refl,
  )
  run-connected (f ∷ fs) s (u, us) n =
      let (n1, events, sent, keep, conns) = retry_round-Fails f s u n in
      let (a, b, c, d, e, g, h) = run-connected fs (retry_round f s) us n1 in
      (
        a,
        b,
        c,
        d ∙ ap (◌++ (simplified_info ∷ local_hub_info ∷ [])) sent,
        e ∙ ap suc keep,
        g ∙ conns,
        h
            ∙ ap (◌++ (map (λ f. gateway_error) fs ++ gateway_connected ∷ [])) events
            ∙ append_assoc s.events (gateway_error ∷ [])
                (map (λ f. gateway_error) fs ++ gateway_connected ∷ []),
      )
