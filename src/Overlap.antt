-- ===== src/Overlap.antt =====
-- Threads of the gateway that handle messages of hubs about themselves at the same time: the look for the hub and its
-- addition in InfoMessageGatewayHandler.cs (below src/Blockcore.Hub.Networking/Handlers/GatewayHandlers) are two steps, each of
-- which ConnectionManagerBase.cs does at once.
pub mod Counting
pub mod Bounds
pub mod Apart
pub mod Twice
mod Tests
use blockcore_gateway.Common.{
  ℕ, ◌+◌, String, Bool, true, false, Option, none, some, List, [], ◌∷◌, ◌++◌, ◌||◌, ◌≡◌, str_eq,
  if◌then◌else◌, get_elem?, set,
}

-- Where a thread stands: before `GetConnection`, before `AddConnection`, or behind both.
pub data Stage : Type 0 where
  looking adding passed : Stage

pub record Handling : Type 0 where
  pub id : String
  pub stage : Stage

-- The ids of the connections, and the messages that are or were handled, each by a thread.
pub record Handlings : Type 0 where
  pub ids : List String
  pub threads : List Handling

unfoldable pub is_listed : String → List String → Bool
is_listed id [] = false
is_listed id (x ∷ xs) = str_eq x id || is_listed id xs

unfoldable pub remove_id : String → List String → List String
remove_id id [] = []
remove_id id (x ∷ xs) = let rest = x ∷ remove_id id xs in if str_eq x id then xs else rest

-- One thread goes on by a step.
unfoldable pub go_on : Handling → List String → Handling × List String
go_on h ids = elim h.stage [
  | looking ↦ (record h { stage = if is_listed h.id ids then passed else adding }, ids)
  | adding ↦ (record h { stage = passed }, ids ++ h.id ∷ [])
  | passed ↦ (h, ids)
]

unfoldable pub thread_goes_on : ℕ → Handlings → Handlings
thread_goes_on i s = elim (get_elem? s.threads i) [
  | none ↦ s
  | some h ↦ let (g, ids) = go_on h s.ids in record s { ids = ids; threads = set s.threads i g }
]

-- What can happen: a message arrives, a thread goes on, a hub is disconnected.
pub data Step (s : Handlings) : Handlings → Type 0 where
  arrives :
      (id : String)
      → Step s (record s { threads = s.threads ++ record { id = id; stage = looking } ∷ [] })
  goes_on : (i : ℕ) → Step s (thread_goes_on i s)
  leaves : (id : String) → Step s (record s { ids = remove_id id s.ids })

abbrev pub none_yet : Handlings
none_yet = record { ids = []; threads = [] }

pub data Reach : Handlings → Type 0 where
  at_first : Reach none_yet
  step : {s t : Handlings} → Reach s → Step s t → Reach t
