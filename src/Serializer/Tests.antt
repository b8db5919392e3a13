-- ===== src/Serializer/Tests.antt =====
-- Two messages, one behind the other, with the next one begun.
use blockcore_gateway.Common.{
  ℕ, String, Bool, true, false, ◌≡◌, ◌≢◌, ◌<◌, refl, Option, none, some, List, [], ◌∷◌, ◌++◌,
  str_eq, length, arith,
}
use blockcore_gateway.Dispatch.{
  Handler, build, get_message_type, process, contains, get_map, register,
}
use blockcore_gateway.Dispatch.Types.{get_message_type-build}
use blockcore_gateway.Serializer.{
  Bytes, Codec, IsFaithful, message, failed, no_message_type, serialize, deserialize,
  deserialize_array,
}
use blockcore_gateway.Serializer.Framing.{deserialize-serialize, deserialize-unregistered}
use blockcore_gateway.Serializer.Slices.{deserialize_array-deserialize, deserialize_array-cut}
use blockcore_gateway.Serializer.Listening.{listen_tcp, frames, listen_tcp-frames}

-- A keep-alive, and a notification of three bytes.
abbrev command_of : Bool → ℕ
command_of true = 3
command_of false = 4

abbrev type_name : Bool → String
type_name true = "KeepAliveMessage"
type_name false = "NotificationMessage"

abbrev pack_small : Bool → Bytes
pack_small true = 145 ∷ []
pack_small false = 147 ∷ 160 ∷ 1 ∷ []

abbrev small : Codec Bool
small = record {
  command = command_of;
  type_of = type_name;
  pack = pack_small;
  unpack = λ t bs. some (str_eq t "KeepAliveMessage");
}

unpack_small : (m : Bool) → small.unpack (small.type_of m) (small.pack m) ≡ some m
unpack_small true = refl
unpack_small false = refl

small_fits : (m : Bool) → length (small.pack m) < 2147483648
small_fits true = omega arith
small_fits false = omega arith

small_commands : (m : Bool) → small.command m < 65536
small_commands true = omega arith
small_commands false = omega arith

small-IsFaithful : IsFaithful small
small-IsFaithful = record {
  unpack-pack = unpack_small;
  pack_fits = small_fits;
  command_fits = small_commands;
}

abbrev keep_alive : Handler
keep_alive = record {
  command = 3;
  message_type = "KeepAliveMessage";
  name = "KeepAliveMessageHandler";
}

abbrev notification : Handler
notification = record {
  command = 4;
  message_type = "NotificationMessage";
  name = "NotificationMessageHandler";
}

abbrev both : List Handler
both = keep_alive ∷ notification ∷ []

deserialize-serialize_example :
    deserialize small (build [] both) 20 (serialize small 0 0 false ++ (1 ∷ 0 ∷ []))
    ≡ (message false, 1 ∷ 0 ∷ [])
deserialize-serialize_example =
    deserialize-serialize small small-IsFaithful (build [] both) 0 0 false (1 ∷ 0 ∷ []) 20
      (get_message_type-build 4 both) (omega arith)

get_message_type-build_example : get_message_type 3 (build [] both) ≡ some "KeepAliveMessage"
get_message_type-build_example = get_message_type-build 3 both

deserialize-unregistered_example :
    deserialize small (build [] (keep_alive ∷ [])) 20 (serialize small 0 0 false ++ [])
    ≡ (failed (no_message_type 4), (147 ∷ 160 ∷ 1 ∷ []) ++ [])
deserialize-unregistered_example =
    deserialize-unregistered small small-IsFaithful (build [] (keep_alive ∷ [])) 0 0 false [] 20
      (get_message_type-build 4 (keep_alive ∷ [])) (omega arith)

abbrev array : Bytes
array = 1 ∷ 0 ∷ 3 ∷ 0 ∷ 0 ∷ 0 ∷ 4 ∷ 0 ∷ 0 ∷ 0 ∷ 147 ∷ 160 ∷ 1 ∷ []

deserialize_array-deserialize_example :
    deserialize_array small (build [] both) array ≡ (deserialize small (build [] both) 11 array).0
unfolding blockcore_gateway.Serializer.header_of
deserialize_array-deserialize_example =
    deserialize_array-deserialize small (build [] both) array 11 (omega arith) (omega arith)

abbrev cut_array : Bytes
cut_array = 1 ∷ 0 ∷ 3 ∷ 0 ∷ 0 ∷ 0 ∷ 4 ∷ 0 ∷ 0 ∷ 0 ∷ 147 ∷ []

-- The body of a stream that ends is handed over as it is.
cut_stream : (deserialize small (build [] both) 9 cut_array).0 ≡ message false
unfolding deserialize blockcore_gateway.Serializer.read_frame blockcore_gateway.Serializer.read_body
    blockcore_gateway.Serializer.header_of build register get_message_type contains get_map
    blockcore_gateway.Dispatch.add_command blockcore_gateway.Dispatch.add_handler
cut_stream = refl

abbrev log_handler : Bool → Handler → List String → List String × Option String
log_handler m h log = (log ++ h.name ∷ [], none)

listen_tcp-frames_example :
    listen_tcp small log_handler 2
      (build [] both)
      20
      (frames small log_handler 0 0 (true ∷ false ∷ []) ++ (1 ∷ []))
      []
    ≡ (1 ∷ [], "KeepAliveMessageHandler" ∷ "NotificationMessageHandler" ∷ [])
unfolding blockcore_gateway.Dispatch.run_handlers
listen_tcp-frames_example =
    listen_tcp-frames small log_handler small-IsFaithful both 0 0 20 (true ∷ false ∷ []) (1 ∷ []) []
      (refl, (refl, tt)) (omega arith)

deserialize_array-cut_example : deserialize_array small (build [] both) cut_array ≢ message false
unfolding blockcore_gateway.Serializer.header_of
deserialize_array-cut_example =
    deserialize_array-cut small (build [] both) cut_array false (omega arith)
