-- ===== src/Broadcasts/Sent.antt =====
-- What the page of messages shows against what the hub was told.
use mathlib.Core.List.{append-nil, append_assoc}
use blockcore_gateway.Common.{◌≡◌, sym, ap, ◌∙◌, List, [], ◌∷◌, ◌++◌}
use blockcore_gateway.HubConnection.{
  Message, Invocation, broadcast_to_hubs, broadcast_to_hubs_relayed, broadcast_to_gateways,
  connect_to_peer, disconnect_to_peer, invoke,
}
use blockcore_gateway.Broadcasts.{
  Pages, own, send, broadcast_hubs, broadcast_hubs_relayed, broadcast_gateways, connect, disconnect,
  on_event_received, Action, types, sends_to_hubs, sends_relayed, sends_to_gateways, connects,
  disconnects, receives, act, run,
}

abbrev payload : Invocation → List Message
payload (broadcast_to_hubs m) = m ∷ []
payload (broadcast_to_hubs_relayed m) = m ∷ []
payload (broadcast_to_gateways m) = m ∷ []
payload (connect_to_peer id) = []
payload (disconnect_to_peer id) = []

-- The messages that the hub was given, oldest first.
abbrev pub payloads : List Invocation → List Message
payloads [] = []
payloads (i ∷ is) = payload i ++ payloads is

payloads-append :
    (is : List Invocation) (j : Invocation) → payloads (is ++ j ∷ []) ≡ payloads is ++ payload j
payloads-append [] j = append-nil (payload j)
payloads-append (i ∷ is) j =
    ap (payload i ++◌) (payloads-append is j)
    ∙ sym (append_assoc (payload i) (payloads is) (payload j))

module _ {D : Type 0} where
  IsListed : Pages D → Type 0
  IsListed p = payloads p.hub.invoked ≡ p.messages

  act-IsListed : (a : Action D) (p : Pages D) → IsListed p → IsListed (act a p)
  unfolding IsListed act broadcast_hubs broadcast_hubs_relayed broadcast_gateways send connect
      disconnect on_event_received invoke
  act-IsListed (types s) p h = h
  act-IsListed sends_to_hubs p h = payloads-append p.hub.invoked _ ∙ ap (◌++ own p ∷ []) h
  act-IsListed sends_relayed p h = payloads-append p.hub.invoked _ ∙ ap (◌++ own p ∷ []) h
  act-IsListed sends_to_gateways p h = payloads-append p.hub.invoked _ ∙ ap (◌++ own p ∷ []) h
  act-IsListed (connects id) p h = payloads-append p.hub.invoked _ ∙ append-nil _ ∙ h
  act-IsListed (disconnects id) p h = payloads-append p.hub.invoked _ ∙ append-nil _ ∙ h
  act-IsListed (receives d) p h = h

  -- If the page of messages lists exactly the messages that the hub was given, in the order in which they were sent, as
  -- when both are new, it goes on to do so while it is open, whatever else the user does there and on the page of hubs
  -- and whatever the hub sends. A page that is opened anew, while the service stays, begins without messages.
  pub run-payloads :
      (rest : List (Action D)) (p : Pages D)
      → payloads p.hub.invoked ≡ p.messages
      → payloads (run rest p).hub.invoked ≡ (run rest p).messages
  unfolding run IsListed
  run-payloads [] p h = h
  run-payloads (a ∷ rest) p h = run-payloads rest (act a p) (act-IsListed a p h)
