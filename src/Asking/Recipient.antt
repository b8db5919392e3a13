-- ===== src/Asking/Recipient.antt =====
-- Which hub is searched for when a request to connect arrives.
use blockcore_gateway.Common.{
  ℕ, String, Bool, true, ◌≡◌, refl, sym, ap, ◌∙◌, some, List, [], ◌∷◌, ◌++◌, All, Option-cases, inl,
  inr,
}
use blockcore_gateway.Js.Text.{Text, text}
use blockcore_gateway.Js.Text.Search.{equal_iff}
use blockcore_gateway.Gateway.{Gateway, req, send_tcp, connected}
use blockcore_gateway.Gateway as Gateway
use blockcore_gateway.Gateway.Joining.{get_hub}
use blockcore_gateway.HubNode.{HubInfo}
use blockcore_gateway.HubNode.Reaching.{Ack, Attempt, find_reachable_endpoint}
use blockcore_gateway.HubNode.Acking.{IpEndpoint, get_hub_info}
use blockcore_gateway.HubNode.Acknowledged.{get_hub_info-id}
use blockcore_gateway.Asking.{
  ConnectionEvent, starting, started, updated, endpoint_of, request_to, relay_req, at_address,
  process_req, publishes, auto_connects,
}

abbrev pub hub_of : ConnectionEvent → HubInfo IpEndpoint Text
hub_of (starting h) = h
hub_of (started h e) = h
hub_of (updated h) = h

-- The events of the search for the hub that is found under the recipient.
publishes-starting :
    (is_connected : ℕ → Bool) (arriving : ℕ → List Ack) (learning : ℕ → List Text) (rounds : ℕ)
    (from id : String) (hs : List (HubInfo IpEndpoint Text)) (s : Attempt IpEndpoint)
    (h : HubInfo IpEndpoint Text)
    → get_hub_info (text id) hs ≡ some h
    → (later : List ConnectionEvent) × (publishes is_connected arriving learning rounds
          (req from id)
          hs
          s
        ≡ starting h ∷ later)
      × All (λ v. hub_of v ≡ h) later
unfolding publishes process_req
publishes-starting is_connected arriving learning rounds from id hs s h known =
    let outcome =
      (find_reachable_endpoint is_connected arriving learning rounds at_address h s).1 in
    elim (Option-cases (endpoint_of outcome)) [
      | inl n ↦ ([], rw (known, publishes, process_req, n) refl, tt)
      | inr (e, n) ↦ (
        started h e ∷ updated h ∷ [],
        rw (known, publishes, process_req, n) refl,
        (refl, (refl, tt)),
      )
    ]

-- The only hub whose update is published is the recipient.
publishes-auto_connects :
    (is_connected : ℕ → Bool) (arriving : ℕ → List Ack) (learning : ℕ → List Text) (rounds : ℕ)
    (from id : String) (hs : List (HubInfo IpEndpoint Text)) (s : Attempt IpEndpoint)
    (h : HubInfo IpEndpoint Text)
    → get_hub_info (text id) hs ≡ some h
    → auto_connects (text id) (publishes is_connected arriving learning rounds (req from id) hs s)
      ≡ []
unfolding publishes process_req auto_connects
publishes-auto_connects is_connected arriving learning rounds from id hs s h found =
    let own = (equal_iff (text id) h.id).1 (sym (get_hub_info-id (text id) hs h found)) in
    let outcome =
      (find_reachable_endpoint is_connected arriving learning rounds at_address h s).1 in
    elim (Option-cases (endpoint_of outcome)) [
      | inl n ↦
          let events : (publishes is_connected arriving learning rounds (req from id) hs s
              ≡ starting h ∷ []) =
            rw (found, publishes, process_req, n) refl in
          ap (auto_connects (text id)) events
      | inr (e, n) ↦
          let events : (publishes is_connected arriving learning rounds (req from id) hs s
              ≡ starting h ∷ started h e ∷ updated h ∷ []) =
            rw (found, publishes, process_req, n) refl in
          ap (auto_connects (text id)) events ∙ rw own refl
    ]

-- A request to connect that a hub sends by way of the gateway reaches the hub that it names as its recipient, if this
-- one is known and connected. There the handler looks the recipient up: if that hub has an entry with its own id, it
-- publishes that a connection is starting, and what it publishes is about that entry only, whichever hub has asked; and it
-- asks for no connection in turn.
pub publishes-recipient :
    (is_connected : ℕ → Bool) (arriving : ℕ → List Ack) (learning : ℕ → List Text) (rounds : ℕ)
    (local_id id : String) (g : Gateway) (x : Gateway.HubInfo) (c : ℕ)
    (hs : List (HubInfo IpEndpoint Text)) (s : Attempt IpEndpoint) (h : HubInfo IpEndpoint Text)
    → get_hub (some id) g.connections ≡ some x
    → x.client ≡ some c
    → connected c g.opened ≡ true
    → get_hub_info (text id) hs ≡ some h
    → ((relay_req (request_to local_id id) g).sent_tcp ≡ g.sent_tcp ++ (c, req local_id id) ∷ [])
      × ((later : List ConnectionEvent) × (publishes is_connected arriving learning rounds
              (req local_id id)
              hs
              s
            ≡ starting h ∷ later)
          × All (λ v. hub_of v ≡ h) later)
      × (h.id ≡ text id)
      × (auto_connects
            (text id)
            (publishes is_connected arriving learning rounds (req local_id id) hs s)
          ≡ [])
unfolding relay_req send_tcp
publishes-recipient is_connected arriving learning rounds local_id id g x c hs s h known client
      open_there own =
    (
      rw (known, relay_req, client, open_there) refl,
      publishes-starting is_connected arriving learning rounds local_id id hs s h own,
      get_hub_info-id (text id) hs h own,
      publishes-auto_connects is_connected arriving learning rounds local_id id hs s h own,
    )
