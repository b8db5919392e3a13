-- ===== src/GatewayLink/Once.antt =====
-- A hub connects to its gateway at most once.
use blockcore_gateway.Common.{
  ℕ, zero, suc, String, Bool, true, false, ◌≡◌, ◌⊎◌, ◌≤◌, ◌+◌, ◌∙◌, refl, List, [], ◌∷◌, ◌++◌,
  arith, Bool-cases, inl, inr,
}
use blockcore_gateway.Relay.{Told, info, disconnected, server_shutdown, found_endpoint}
use blockcore_gateway.GatewayLink.{
  ConnectAttempt, no_adapter, refused, accepted, LinkEvent, gateway_connected, gateway_error,
  gateway_shutdown, HubLink, LinkAction, round, told, lost, wake, send_message_tcp, connect_gateway,
  retry_round, wake_keep_alive, read_message, take_action, run,
}

abbrev pub one_if : Bool → ℕ
one_if true = 1
one_if false = 0

abbrev pub counted : LinkEvent → ℕ
counted gateway_connected = 1
counted gateway_error = 0
counted gateway_shutdown = 0

-- How often the connection was announced.
abbrev pub connects : List LinkEvent → ℕ
connects [] = 0
connects (e ∷ es) = counted e + connects es

pub connects-append :
    (es : List LinkEvent) (e : LinkEvent) → connects (es ++ e ∷ []) ≡ connects es + counted e
connects-append [] e = omega arith
connects-append (x ∷ es) e = omega (arith, connects-append es e)

-- The connection was announced once if the loop has connected, and not before; a keep-alive thread runs while the
-- connection is there, and never two of them, nor one before the loop has connected.
abbrev pub IsSingle : HubLink → Type 0
IsSingle s =
    (connects s.events ≡ one_if s.connected_to_gateway)
    × (one_if s.tcp_connected ≤ s.keep_alives)
    × (s.keep_alives ≤ one_if s.connected_to_gateway)

retry_round-IsSingle : (a : ConnectAttempt) (s : HubLink) → IsSingle s → IsSingle (retry_round a s)
unfolding retry_round connect_gateway send_message_tcp
retry_round-IsSingle no_adapter s h =
    ground (arith, connects-append s.events gateway_error, Bool-cases s.connected_to_gateway)
retry_round-IsSingle refused s h =
    ground (arith, connects-append s.events gateway_error, Bool-cases s.connected_to_gateway)
retry_round-IsSingle (accepted true) s h =
    ground (arith, connects-append s.events gateway_connected)
retry_round-IsSingle (accepted false) s h =
    ground (arith, connects-append s.events gateway_connected)

read_message-IsSingle :
    (merge : String → String → String) (m : Told) (s : HubLink)
    → IsSingle s
    → IsSingle (read_message merge m s)
unfolding read_message
read_message-IsSingle merge (info c) s h = h
read_message-IsSingle merge (disconnected id) s h = h
read_message-IsSingle merge server_shutdown s h =
    ground (arith, connects-append s.events gateway_shutdown)
read_message-IsSingle merge (found_endpoint id) s h = h

wake_keep_alive-IsSingle : (s : HubLink) → IsSingle s → IsSingle (wake_keep_alive s)
unfolding wake_keep_alive send_message_tcp
wake_keep_alive-IsSingle s h = elim (Bool-cases s.tcp_connected) [
  | inl e ↦ ground arith
  | inr e ↦ ground arith
]

ℕ-cases : (n : ℕ) → (n ≡ 0) ⊎ (k : ℕ) × (n ≡ suc k)
ℕ-cases zero = inl refl
ℕ-cases (suc k) = inr (k, refl)

take_action-IsSingle :
    (merge : String → String → String) (a : LinkAction) (s : HubLink)
    → IsSingle s
    → IsSingle (take_action merge a s)
unfolding take_action
take_action-IsSingle merge (round a) s h = retry_round-IsSingle a s h
take_action-IsSingle merge (told m) s h = read_message-IsSingle merge m s h
take_action-IsSingle merge lost s h = ground arith
take_action-IsSingle merge wake s h = elim (ℕ-cases s.keep_alives) [
  | inl e ↦ rw (e, take_action) h
  | inr (n, e) ↦ rw (e, take_action) (wake_keep_alive-IsSingle s h)
]

-- If this holds at first, then whatever happens, the connection to the gateway is announced once if the loop has
-- connected and not before, a keep-alive thread runs while the connection is there, and there are never two of them.
pub run-IsSingle :
    (merge : String → String → String) (xs : List LinkAction) (s : HubLink)
    → IsSingle s
    → IsSingle (run merge xs s)
unfolding run
run-IsSingle merge [] s h = h
run-IsSingle merge (a ∷ xs) s h =
    run-IsSingle merge xs (take_action merge a s) (take_action-IsSingle merge a s h)

-- When the loop has connected and the connection is gone.
abbrev IsEnded : HubLink → Type 0
IsEnded s = (s.connected_to_gateway ≡ true) × (s.tcp_connected ≡ false)

take_action-IsEnded :
    (merge : String → String → String) (a : LinkAction) (s : HubLink)
    → IsEnded s
    → IsEnded (take_action merge a s) × ((take_action merge a s).sent ≡ s.sent)
unfolding take_action retry_round read_message wake_keep_alive send_message_tcp
take_action-IsEnded merge (round a) s h = rw (h.0) ((refl, h.1), refl)
take_action-IsEnded merge (told (info c)) s h = (h, refl)
take_action-IsEnded merge (told (disconnected id)) s h = (h, refl)
take_action-IsEnded merge (told server_shutdown) s h = ((h.0, refl), refl)
take_action-IsEnded merge (told (found_endpoint id)) s h = (h, refl)
take_action-IsEnded merge lost s h = ((h.0, refl), refl)
take_action-IsEnded merge wake s h = elim (ℕ-cases s.keep_alives) [
  | inl e ↦ rw (e, take_action) (h, refl)
  | inr (n, e) ↦ rw (e, h.1, take_action) ((h.0, refl), refl)
]

-- Once the loop has connected and the connection is gone, after a shutdown of the gateway or a loss, the hub is never
-- connected to the gateway again and sends nothing to it any more, whatever happens.
pub never_reconnects :
    (merge : String → String → String) (xs : List LinkAction) (s : HubLink)
    → s.connected_to_gateway ≡ true
    → s.tcp_connected ≡ false
    → ((run merge xs s).tcp_connected ≡ false) × ((run merge xs s).sent ≡ s.sent)
unfolding run
never_reconnects merge [] s c d = (d, refl)
never_reconnects merge (a ∷ xs) s c d =
    let (h, same) = take_action-IsEnded merge a s (c, d) in
    let (gone, quiet) = never_reconnects merge xs (take_action merge a s) h.0 h.1 in
    (gone, quiet ∙ same)
