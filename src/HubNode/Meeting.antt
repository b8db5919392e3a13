-- ===== src/HubNode/Meeting.antt =====
-- A hub that searches for another one, which hears its Acks and answers: `ListenUDP` of
-- src/Blockcore.Hub.Networking/Managers/HubManager.cs on the one side, the sleeps of its `FindReachableEndpoint` on the
-- other.
mod Tests
use mathlib.Core.List.{}
use blockcore_gateway.Common.{
  ℕ, zero, suc, Bool, false, none, some, List, [], ◌∷◌, ◌++◌, if◌then◌else◌, drop, length,
}
use blockcore_gateway.Js.Text.{Text}
use blockcore_gateway.Js.Text.Search.{}
use blockcore_gateway.HubNode.{}
use blockcore_gateway.HubNode.Reaching.{Ack}
use blockcore_gateway.HubNode.Acking.{IpEndpoint, AckMessage, AckState, process_ack}
use blockcore_gateway.HubNode.Acknowledged.{}

-- `new Ack(LocalHubInfo.Id)` as a message.
abbrev pub request_of : Text → AckMessage
request_of id = record { id = id; recipient_id = none; response = false }

-- One round of `ListenUDP` with an Ack: an exception of the handler is caught.
unfoldable pub hear : AckMessage → IpEndpoint → AckState → AckState
hear m from s = elim (process_ack m from s) [ none ↦ s | some t ↦ t ]

-- What the hub sends while it hears the message.
unfoldable pub replies : AckMessage → IpEndpoint → AckState → List (IpEndpoint × AckMessage)
replies m from s = drop (length s.sent) (hear m from s).sent

-- What the answers are to the hub that gets them.
unfoldable pub to_acks : List (IpEndpoint × AckMessage) → List Ack
to_acks [] = []
to_acks ((e, m) ∷ rest) =
    let others = to_acks rest in
    if m.response then record { id = m.id; recipient_id = m.recipient_id } ∷ others else others

-- Acks of the hub `id` on the way to a hub that is `start` at first: the n-th one gets there if `delivered n`, as one
-- from `source n`.
module _ (id : Text) (source : ℕ → IpEndpoint) (delivered : ℕ → Bool) (first : AckState) where
  -- The hub that is heard_before, before the n-th Ack.
  unfoldable pub heard_before : ℕ → AckState
  heard_before zero = first
  heard_before (suc n) =
      let before = heard_before n in
      if delivered n then hear (request_of id) (source n) before else before

  unfoldable pub answers_to : ℕ → List Ack
  answers_to n =
      if delivered n then to_acks (replies (request_of id) (source n) (heard_before n)) else []

  -- The answers that come in during a sleep, given by the numbers of the Acks that they answer: some may be lost, late,
  -- or out of order.
  unfoldable pub coming_in : List ℕ → List Ack
  coming_in [] = []
  coming_in (n ∷ ns) = answers_to n ++ coming_in ns
