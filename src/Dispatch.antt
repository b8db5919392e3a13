-- ===== src/Dispatch.antt =====
-- The dispatch of messages in the hub: src/Blockcore.Hub.Networking/HubMessageProcessing.cs, with
-- MessageMaps.cs and Map.cs. The gateway's GatewayMessageProcessing.cs is the same code.
pub mod Registration
pub mod Processing
pub mod Types
mod Tests
use mathlib.Core.Option
use blockcore_gateway.Common.{
  ℕ, ◌≡◌, String, Bool, true, false, Option, none, some, List, [], ◌∷◌, ◌++◌, ◌||◌, if◌then◌else◌,
  ◌==◌,
}

-- A handler, with the command and the type of the message that it handles, which the source finds by
-- reflection.
pub record Handler : Type 0 where
  pub command : ℕ
  pub message_type : String
  pub name : String

pub record Map : Type 0 where
  pub command : ℕ
  pub message_type : String
  pub handlers : List Handler

-- The dictionary of the maps by their commands, in the order in which they were added.
abbrev pub MessageMaps : Type 0
MessageMaps = List Map

unfoldable pub contains : ℕ → MessageMaps → Bool
contains c [] = false
contains c (m ∷ ms) = (m.command == c) || contains c ms

unfoldable pub add_command : Map → MessageMaps → MessageMaps
add_command m ms = ms ++ m ∷ []

-- `maps[command].Handlers.Add(handler)`, for a command that there is.
unfoldable pub add_handler : ℕ → Handler → MessageMaps → MessageMaps
add_handler c h [] = []
add_handler c h (m ∷ ms) =
    let rest = m ∷ add_handler c h ms in
    if m.command == c then record m { handlers = m.handlers ++ h ∷ [] } ∷ ms else rest

-- `maps[command]`; `none` is the exception for a missing key.
unfoldable pub get_map : ℕ → MessageMaps → Option Map
get_map c [] = none
get_map c (m ∷ ms) = let rest = get_map c ms in if m.command == c then some m else rest

-- The type of a command's message; `none` is the exception for a command without handlers.
unfoldable pub get_message_type : ℕ → MessageMaps → Option String
get_message_type c ms =
    if contains c ms then Option.map (λ m. m.message_type) (get_map c ms) else none

-- The body of the loop of `Build`.
unfoldable pub register : MessageMaps → Handler → MessageMaps
register ms h =
    if contains h.command ms
    then add_handler h.command h ms
    else add_command
        (record { command = h.command; message_type = h.message_type; handlers = h ∷ [] }) ms

unfoldable pub build : MessageMaps → List Handler → MessageMaps
build ms [] = ms
build ms (h ∷ hs) = build (register ms h) hs

pub data Failure (E : Type 0) : Type 0 where
  argument_null key_not_found : Failure E
  no_handlers : ℕ → Failure E
  handler_failed : E → Failure E

-- `handler.Process` is an argument: what it makes of the state `S`, and the exception that it throws, if any.
module _ {S E : Type 0} (call : Handler → S → S × Option E) where
  unfoldable pub run_handlers : List Handler → S → S × Option (Failure E)
  run_handlers [] s = (s, none)
  run_handlers (h ∷ hs) s = elim (call h s).1 [
    | none ↦ run_handlers hs (call h s).0
    | some e ↦ ((call h s).0, some (handler_failed e))
  ]

  run_map : Option Map → S → S × Option (Failure E)
  unfolding run_handlers
  run_map none s = (s, some key_not_found)
  run_map (some m) s = run_handlers m.handlers s

  -- `Process`, of which only the message's command matters here; `none` is a missing message.
  unfoldable pub process : MessageMaps → Option ℕ → S → S × Option (Failure E)
  unfolding run_map
  process ms none s = (s, some argument_null)
  process ms (some c) s =
      let found = run_map (get_map c ms) s in
      if contains c ms then found else (s, some (no_handlers c))
