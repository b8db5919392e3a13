-- ===== src/HubConnection.antt =====
-- The connection of src/Blockcore.Hub/ClientApp/src/app/services/hub.service.ts to the hub process.
-- The SignalR client is not modelled:
-- `start()` settles when the environment says so, and `invoke` is recorded as it is called.
pub mod Lifecycle
mod Tests
use blockcore_gateway.Common.{
  ℕ, zero, suc, String, Bool, true, false, List, [], ◌∷◌, ◌++◌, ◌-◌, ◌<◌,
}

pub record Message : Type 0 where
  pub from : String
  pub content : String

-- What is handed to `invoke`.
pub data Invocation : Type 0 where
  broadcast_to_hubs : Message → Invocation
  broadcast_to_hubs_relayed : Message → Invocation
  broadcast_to_gateways : Message → Invocation
  connect_to_peer : ℕ → Invocation
  disconnect_to_peer : ℕ → Invocation

-- `pending`: calls of `start()` that have not settled; `start_calls`: all calls of it so far;
-- `timers`: timeouts that are armed; `type_errors`: exceptions thrown by a timeout's callback;
-- `established`, `received`: what the two emitters emitted, oldest first; `handlers`: how often
-- 'Event' was registered.
pub record HubService (D : Type 0) : Type 0 where
  pub connection_is_established : Bool
  pub pending : ℕ
  pub start_calls : ℕ
  pub timers : ℕ
  pub type_errors : ℕ
  pub handlers : ℕ
  pub established : List Bool
  pub received : List D
  pub invoked : List Invocation

-- The receiver of a call: what `this` is.
pub data This : Type 0 where
  service global : This

module _ {D : Type 0} where
  create_connection : HubService D
  create_connection = record {
    connection_is_established = false;
    pending = 0;
    start_calls = 0;
    timers = 0;
    type_errors = 0;
    handlers = 0;
    established = [];
    received = [];
    invoked = [];
  }

  register_on_server_events : HubService D → HubService D
  register_on_server_events s = record s { handlers = suc s.handlers }

  start_connection : HubService D → HubService D
  start_connection s = record s { pending = suc s.pending; start_calls = suc s.start_calls }

  unfoldable pub new : HubService D
  unfolding create_connection register_on_server_events start_connection
  new = start_connection (register_on_server_events create_connection)

  -- The `then` of `start()`.
  pub on_started : HubService D → HubService D
  on_started s = record s {
    pending = s.pending - 1;
    connection_is_established = true;
    established = s.established ++ true ∷ [];
  }

  -- The `catch` of `start()`.
  pub on_failed : HubService D → HubService D
  on_failed s = record s { pending = s.pending - 1; timers = suc s.timers }

  -- `this.startConnection()`: only the service has that method.
  pub call_start_connection : This → HubService D → HubService D
  unfolding start_connection
  call_start_connection service s = start_connection s
  call_start_connection global s = record s { type_errors = suc s.type_errors }

  -- The timeout's callback is a `function`, which `setTimeout` calls with its own `this`.
  pub on_timeout : HubService D → HubService D
  unfolding call_start_connection
  on_timeout s = call_start_connection global (record s { timers = s.timers - 1 })

  -- Each registered handler emits the event once.
  deliver : ℕ → D → List D → List D
  deliver zero d ds = ds
  deliver (suc n) d ds = deliver n d (ds ++ d ∷ [])

  pub on_server_event : D → HubService D → HubService D
  unfolding deliver
  on_server_event d s = record s { received = deliver s.handlers d s.received }

  unfoldable pub invoke : Invocation → HubService D → HubService D
  invoke i s = record s { invoked = s.invoked ++ i ∷ [] }

  -- What the environment can do: settle a call of `start()`, let a timeout run out, deliver an
  -- event; and what the components do, which is to invoke.
  pub data Step : HubService D → HubService D → Type 0 where
    started : (s : HubService D) → 0 < s.pending → Step s (on_started s)
    failed : (s : HubService D) → 0 < s.pending → Step s (on_failed s)
    timeout : (s : HubService D) → 0 < s.timers → Step s (on_timeout s)
    server_event : (d : D) (s : HubService D) → Step s (on_server_event d s)
    invokes : (i : Invocation) (s : HubService D) → Step s (invoke i s)

  pub data Reach (s : HubService D) : HubService D → Type 0 where
    here : Reach s s
    next : {t u : HubService D} → Reach s t → Step t u → Reach s u
