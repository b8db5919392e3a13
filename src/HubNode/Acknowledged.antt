-- ===== src/HubNode/Acknowledged.antt =====
-- What the answer of a hub is to the one that asked, and when there is none.
use blockcore_gateway.Common.{
  ◌≡◌, ◌≢◌, ◌↔◌, refl, true, false, Option, none, some, List, [], ◌∷◌, ◌++◌, arith,
}
use blockcore_gateway.Js.Text.{Text}
use blockcore_gateway.Js.Text.Search.{equal_iff}
use blockcore_gateway.HubNode.{HubInfo}
use blockcore_gateway.HubNode.Reaching.{Ack, take_ack, is_from}
use blockcore_gateway.HubNode.Acking.{
  IpEndpoint, AckMessage, AckState, get_hub_info, answer_to, process_ack,
}

take_ack-append_one :
    (id : Text) (xs : List Ack) (a : Ack) → is_from id a ≡ true → take_ack id (xs ++ a ∷ []) ≢ none
unfolding take_ack
take_ack-append_one id [] a e n = absurd (ground (arith, e))
take_ack-append_one id (x ∷ xs) a e n = take_ack-append_one id xs a e (ground (arith, n))

-- What the answer says.
abbrev reply : AckMessage → Text → AckMessage
reply m local = record { id = m.id; recipient_id = some local; response = true }

-- A request of a hub that is known with its external endpoint is answered once, to where it came from, and wherever
-- the answer arrives from, the hub that asked counts it as one of the hub that it was looking for.
pub process_ack-answered :
    (m : AckMessage) (from known : IpEndpoint) (s : AckState) (h : HubInfo IpEndpoint Text)
    (e : IpEndpoint) (asker : AckState)
    → m.response ≡ false
    → get_hub_info m.id s.connections ≡ some h
    → h.external_endpoint ≡ some known
    → (t : AckState) × (r : AckMessage) × (process_ack m from s ≡ some t)
      × (t.sent ≡ s.sent ++ (from, r) ∷ [])
      × ((u : AckState) × (process_ack r e asker ≡ some u)
          × (take_ack s.local_id u.ack_responces ≢ none))
unfolding process_ack answer_to
process_ack-answered m from known s h e asker request found endpoint = (
  answer_to m from h known s,
  reply m s.local_id,
  rw (request, found, process_ack, endpoint) refl,
  refl,
  (
    record asker {
      ack_responces =
          asker.ack_responces ++ record { id = m.id; recipient_id = some s.local_id } ∷ [];
    },
    refl,
    take_ack-append_one s.local_id asker.ack_responces _ ((equal_iff s.local_id s.local_id).1 refl),
  ),
)

-- The external endpoint that is known of a hub, if any.
abbrev pub known_endpoint : Text → AckState → Option IpEndpoint
known_endpoint id s = elim (get_hub_info id s.connections) [
  | none ↦ none
  | some h ↦ h.external_endpoint
]

-- The handler throws exactly on a request of a hub that is not known, or of which no external endpoint is.
pub process_ack-throws_iff :
    (m : AckMessage) (from : IpEndpoint) (s : AckState)
    → (process_ack m from s ≡ none) ↔ ((m.response ≡ false) × (known_endpoint m.id s ≡ none))
unfolding process_ack
process_ack-throws_iff m from s = (λ e. (ground arith, ground arith), λ (r, k). ground arith)

pub get_hub_info-id :
    (id : Text) (hs : List (HubInfo IpEndpoint Text)) (h : HubInfo IpEndpoint Text)
    → get_hub_info id hs ≡ some h
    → h.id ≡ id
unfolding get_hub_info
get_hub_info-id id [] h e = absurd (ground arith)
get_hub_info-id id (x ∷ xs) h e = ground (arith, equal_iff x.id id, get_hub_info-id id xs h)
