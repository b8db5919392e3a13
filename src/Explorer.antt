-- ===== src/Explorer.antt =====
-- The explorer's front page, which polls the indexer:
-- src/Blockcore.Hub/ClientApp/src/app/explorer/explorer.component.ts.
pub mod Contents
pub mod Loops
mod Tests
use blockcore_gateway.Common.{
  String, ℕ, zero, suc, ◌+◌, ◌-◌, ◌<◌, ◌≡◌, Bool, true, false, Option, none, some, List, [], ◌∷◌,
  ◌++◌, ◌==◌, if◌then◌else◌,
}
use blockcore_gateway.Js.Sort.{sort_desc}
use blockcore_gateway.Js.Text.{Text}
use blockcore_gateway.Js.Value.{Value, get}
use blockcore_gateway.Api.{Error, type_error, Result, ok, err, read, optional_get, ◌>>=◌}

pub record Block : Type 0 where
  pub block_index : ℕ
  pub block_hash : Text

-- `armed_info`, `armed_blocks`: the handles of the timeouts that are to come; `timer_info`, `timer_blocks`: the
-- handle that the component remembers of each. `rounds`: runs of the subscription that wait for
-- their `updateInfo`; `info_requests`: other runs of it; `block_requests`: runs of `updateBlocks`.
pub record Explorer : Type 0 where
  pub info : Value
  pub node : Value
  pub blockchain : Value
  pub network : Value
  pub configuration : Value
  pub consensus : Value
  pub blocks : Option (List Block)
  pub error_blocks : Option Error
  pub error_info : Option Error
  pub timer_info : Option ℕ
  pub timer_blocks : Option ℕ
  pub armed_info : List ℕ
  pub armed_blocks : List ℕ
  pub next_handle : ℕ
  pub rounds : ℕ
  pub info_requests : ℕ
  pub block_requests : ℕ
  pub subscribed : Bool

-- The assignments of `updateInfo` to the body of its answer: the fields that are reached before an exception
-- keep their new values.
set_consensus : Value → Explorer → Explorer
set_consensus info e = record e {
  network = get "network" (get "node" info);
  configuration = get "configuration" info;
  consensus = optional_get "consensus" (get "configuration" info);
  error_info = none;
}

set_node : Value → Explorer → Explorer
unfolding set_consensus
set_node info e = elim (read "blockchain" (get "node" info)) [
  | err x ↦ record e { node = get "node" info; error_info = some x }
  | ok chain ↦ set_consensus info (record e { node = get "node" info; blockchain = chain })
]

pub set_info : Result Value → Explorer → Explorer
unfolding set_node
set_info (err x) e = record e { error_info = some x }
set_info (ok info) e = elim (read "node" info) [
  | err x ↦ record e { info = info; error_info = some x }
  | ok n ↦ set_node info (record e { info = info })
]

-- `updateBlocks` up to its timeout.
pub set_blocks : Result (List Block) → Explorer → Explorer
set_blocks (err x) e = record e { error_blocks = some x }
set_blocks (ok list) e = record e {
  blocks = some (sort_desc (λ b. b.block_index) list);
  error_blocks = none;
}

-- `this.timerInfo = setTimeout(…)`, and `this.timerBlocks = setTimeout(…)`.
arm_info : Explorer → Explorer
arm_info e = record e {
  timer_info = some e.next_handle;
  armed_info = e.next_handle ∷ e.armed_info;
  next_handle = suc e.next_handle;
}

arm_blocks : Explorer → Explorer
arm_blocks e = record e {
  timer_blocks = some e.next_handle;
  armed_blocks = e.next_handle ∷ e.armed_blocks;
  next_handle = suc e.next_handle;
}

-- The subscription to the current chain: `await this.updateInfo()`.
pub on_chain : Explorer → Explorer
on_chain e = record e { rounds = suc e.rounds }

-- The answer to the subscription's `updateInfo`, behind which it calls `updateBlocks`.
pub on_round_info : Result Value → Explorer → Explorer
unfolding arm_info
on_round_info answer e =
    let f = arm_info (set_info answer e) in
    record f { rounds = f.rounds - 1; block_requests = suc f.block_requests }

-- The answer to an `updateInfo` that a timeout has begun.
pub on_info : Result Value → Explorer → Explorer
unfolding arm_info
on_info answer e =
    let f = arm_info (set_info answer e) in record f { info_requests = f.info_requests - 1 }

pub on_blocks : Result (List Block) → Explorer → Explorer
unfolding arm_blocks
on_blocks answer e =
    let f = arm_blocks (set_blocks answer e) in record f { block_requests = f.block_requests - 1 }

-- A handle leaves the list of those to come, when its timeout runs and when it is cleared.
unfoldable pub remove : ℕ → List ℕ → List ℕ
remove h [] = []
remove h (x ∷ xs) = let rest = x ∷ remove h xs in if x == h then xs else rest

pub on_info_timeout : ℕ → Explorer → Explorer
on_info_timeout h e = record e {
  armed_info = remove h e.armed_info;
  info_requests = suc e.info_requests;
}

pub on_blocks_timeout : ℕ → Explorer → Explorer
on_blocks_timeout h e = record e {
  armed_blocks = remove h e.armed_blocks;
  block_requests = suc e.block_requests;
}

-- `clearTimeout(timer)`
abbrev clear : Option ℕ → List ℕ → List ℕ
clear none armed = armed
clear (some h) armed = remove h armed

pub ng_on_destroy : Explorer → Explorer
ng_on_destroy e = record e {
  armed_info = clear e.timer_info e.armed_info;
  armed_blocks = clear e.timer_blocks e.armed_blocks;
  subscribed = false;
}

-- The subscription begins with the current chain, which it is told at once.
pub new : Explorer
unfolding on_chain
new = on_chain (record {
  info = Value.undefined;
  node = Value.undefined;
  blockchain = Value.undefined;
  network = Value.undefined;
  configuration = Value.undefined;
  consensus = Value.undefined;
  blocks = none;
  error_blocks = none;
  error_info = none;
  timer_info = none;
  timer_blocks = none;
  armed_info = [];
  armed_blocks = [];
  next_handle = 0;
  rounds = 0;
  info_requests = 0;
  block_requests = 0;
  subscribed = true;
})

-- A handle that is armed, with the others.
pub data Armed (h : ℕ) : List ℕ → Type 0 where
  head : {x : ℕ} {xs : List ℕ} → x ≡ h → Armed h (x ∷ xs)
  tail : {x : ℕ} {xs : List ℕ} → Armed h xs → Armed h (x ∷ xs)

-- What can happen: a chain is chosen, an answer or a failure arrives, a timeout runs, and once the component is destroyed.
pub data Step : Explorer → Explorer → Type 0 where
  chain : (e : Explorer) → e.subscribed ≡ true → Step e (on_chain e)
  round_info : (a : Result Value) (e : Explorer) → 0 < e.rounds → Step e (on_round_info a e)
  info : (a : Result Value) (e : Explorer) → 0 < e.info_requests → Step e (on_info a e)
  blocks : (a : Result (List Block)) (e : Explorer) → 0 < e.block_requests → Step e (on_blocks a e)
  info_timeout : (h : ℕ) (e : Explorer) → Armed h e.armed_info → Step e (on_info_timeout h e)
  blocks_timeout : (h : ℕ) (e : Explorer) → Armed h e.armed_blocks → Step e (on_blocks_timeout h e)
  destroy : (e : Explorer) → e.subscribed ≡ true → Step e (ng_on_destroy e)

pub data Reach (e : Explorer) : Explorer → Type 0 where
  here : Reach e e
  next : {f g : Explorer} → Reach e f → Step f g → Reach e g
