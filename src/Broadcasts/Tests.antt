-- ===== src/Broadcasts/Tests.antt =====
-- A message to the hubs between two connections.
use blockcore_gateway.Broadcasts.Visits.{Visit, enters, leaves, emits, events_since}
use blockcore_gateway.Common.{List, ℕ, ◌≡◌, refl, [], ◌∷◌}
use blockcore_gateway.Common.{ℕ, ◌≡◌, refl, List, [], ◌∷◌}
use blockcore_gateway.HubConnection.{new}
use blockcore_gateway.Broadcasts.{
  Pages, Action, types, sends_relayed, connects, disconnects, receives, act, run,
  broadcast_hubs_relayed, send,
}
use blockcore_gateway.Broadcasts.Sent.{payloads, run-payloads}

abbrev pages : Pages ℕ
pages = record { message = ""; messages = []; received = []; hub = new }

abbrev actions : List (Action ℕ)
actions = connects 1 ∷ types "hi" ∷ sends_relayed ∷ receives 7 ∷ disconnects 1 ∷ []

run-payloads_example : payloads (run actions pages).hub.invoked ≡ (run actions pages).messages
unfolding new
run-payloads_example = run-payloads actions pages refl

listed : (run actions pages).messages ≡ record { from = "me"; content = "hi" } ∷ []
unfolding run act broadcast_hubs_relayed send
listed = refl

-- Two visits, the second after the first has been left.
abbrev two_visits : List (Visit ℕ)
two_visits = enters ∷ emits 1 ∷ leaves ∷ emits 2 ∷ enters ∷ emits 3 ∷ []

still_collecting : events_since two_visits ≡ (3 ∷ []) ∷ (1 ∷ 2 ∷ 3 ∷ []) ∷ []
still_collecting = refl
