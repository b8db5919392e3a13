-- ===== src/Worker/Knowing.antt =====
-- The handlers of the gateway keep a client that it knows, and close none.
use blockcore_gateway.Common.{
  ℕ, ◌≤◌, ◌≡◌, refl, ◌∙◌, String, Bool, true, false, Option, none, some, List, [], ◌∷◌, ◌++◌, ◌==◌,
  ◌&&◌, if◌then◌else◌, arith, Option-cases, Bool-cases, inl, inr, str_eq,
}
use blockcore_gateway.Gateway.{
  HubInfo, Entity, hub_info, broadcast, Gateway, has_client, connected, get_broadcast_connections,
}
use blockcore_gateway.Gateway.Sending.{send_tcp-receiver}
use blockcore_gateway.Gateway.Disconnecting.{uses}
use blockcore_gateway.Gateway.Joining.{
  InfoMessage, tcp, get_hub, change, add_or_update, enrol, or_kept, tell,
}
use blockcore_gateway.Gateway.Told.{send_connections-to_each}
use blockcore_gateway.Gateway.Writing.{
  Outcome, and_then, try_send_tcp, try_send_all_tcp, try_broadcast_tcp, try_test_tcp, try_greet,
  try_process_info,
}
use blockcore_gateway.Worker.{
  to_the_end, not_to_external, past_external, GatewayMessage, info_message, req_message,
  broadcast_message, keep_alive_message, message_message, update_past_external, try_relay_req,
  try_process_broadcast, process_message,
}

-- A change that keeps the client, or makes it this one, keeps the number of its connections or raises it.
uses-change :
    (c : ℕ) (id : Option String) (f : HubInfo → HubInfo) (xs : List HubInfo)
    → ((x : HubInfo) → has_client c x ≡ true → has_client c (f x) ≡ true)
    → uses c xs ≤ uses c (change id f xs)
unfolding change
uses-change c id f [] keeps = omega arith
uses-change c id f (x ∷ xs) keeps = elim (Bool-cases (has_client c x)) [
  | inl e ↦ ground (arith, keeps x e, uses-change c id f xs keeps)
  | inr e ↦ ground (arith, uses-change c id f xs keeps)
]

uses-append : (c : ℕ) (xs : List HubInfo) (y : HubInfo) → uses c xs ≤ uses c (xs ++ y ∷ [])
uses-append c [] y = omega arith
uses-append c (x ∷ xs) y = elim (Bool-cases (has_client c x)) [
  | inl e ↦ ground (arith, uses-append c xs y)
  | inr e ↦ ground (arith, uses-append c xs y)
]

uses-add_or_update :
    (c : ℕ) (m : InfoMessage) (xs : List HubInfo) → uses c xs ≤ uses c (add_or_update m xs)
unfolding add_or_update
uses-add_or_update c m xs = elim (Option-cases (get_hub m.id xs)) [
  | inl e ↦ rw (e, add_or_update) (uses-append c xs _)
  | inr (x, e) ↦ rw (e, add_or_update) (uses-change c m.id _ xs (λ y h. h))
]

==_refl : (c : ℕ) → (c == c) ≡ true
==_refl c = ground arith

uses-enrol :
    (c : ℕ) (m : InfoMessage) (endpoint : Option ℕ) (xs : List HubInfo)
    → uses c xs ≤ uses c (enrol m endpoint (some c) xs)
unfolding enrol
uses-enrol c m endpoint xs =
    let filled = λ (h : HubInfo). record h {
      external_endpoint = or_kept endpoint h.external_endpoint;
      client = or_kept (some c) h.client;
    } in
    let kept = uses-change c m.id filled (add_or_update m xs) (λ y h. ==_refl c) in
    omega (arith, uses-add_or_update c m xs, kept)

-- The client has at least as many connections as before, and the same clients are open.
abbrev pub Keeps : ℕ → Gateway → Gateway → Type 0
Keeps c g h = (uses c g.connections ≤ uses c h.connections) × (h.opened ≡ g.opened)

pub Keeps-trans : (c : ℕ) (f g h : Gateway) → Keeps c f g → Keeps c g h → Keeps c f h
Keeps-trans c f g h (a, b) (d, e) = (omega arith, e ∙ b)

tell-Keeps : (c : ℕ) (x : HubInfo) (g : Gateway) → Keeps c g (tell x g)
unfolding tell
tell-Keeps c x g = elim (Option-cases x.client) [
  | inl e ↦ rw (e, tell) (omega arith, refl)
  | inr (d, e) ↦ elim (Option-cases x.external_endpoint) [
    | inl k ↦ rw (e, k, tell) (omega arith, refl)
    | inr (p, k) ↦
        rw (e, k, tell, send_connections-to_each g.connections (some p) g)
          (uses-change c x.id _ g.connections (λ y h. h), refl)
  ]
]

-- What comes next, if no exception does, keeps it too.
Keeps-and_then :
    (c : ℕ) (g : Gateway) (o : Outcome) (f : Gateway → Outcome)
    → Keeps c g o.0
    → ((h : Gateway) → Keeps c h (f h).0)
    → Keeps c g (and_then o f).0
Keeps-and_then c g (h, none) f kept keeps = Keeps-trans c g h (f h).0 kept (keeps h)
Keeps-and_then c g (h, some e) f kept keeps = kept

Keeps-either :
    (c : ℕ) (g : Gateway) (b : Bool) (o p : Outcome)
    → Keeps c g o.0
    → Keeps c g p.0
    → Keeps c g (if b then o else p).0
Keeps-either c g true o p k l = k
Keeps-either c g false o p k l = l

module _ (write_fails : ℕ → Gateway → Bool) (c : ℕ) where
  try_send_tcp-Keeps :
      (e : Entity) (o : Option ℕ) (g : Gateway) → Keeps c g (try_send_tcp write_fails e o g).0
  unfolding try_send_tcp
  try_send_tcp-Keeps e none g = (omega arith, refl)
  try_send_tcp-Keeps e (some d) g = elim (Bool-cases (connected d g.opened && write_fails d g)) [
    | inl k ↦ rw (k, try_send_tcp) (omega arith, refl)
    | inr k ↦ rw (k, try_send_tcp, send_tcp-receiver e (some d) g) (omega arith, refl)
  ]

  try_send_all_tcp-Keeps :
      (e : Entity) (xs : List HubInfo) (g : Gateway)
      → Keeps c g (try_send_all_tcp write_fails e xs g).0
  unfolding try_send_all_tcp
  try_send_all_tcp-Keeps e [] g = (omega arith, refl)
  try_send_all_tcp-Keeps e (x ∷ xs) g =
      Keeps-and_then c g (try_send_tcp write_fails e x.client g) (try_send_all_tcp write_fails e xs)
        (try_send_tcp-Keeps e x.client g) (try_send_all_tcp-Keeps e xs)

  pub try_broadcast_tcp-Keeps :
      (e : Entity) (g : Gateway) → Keeps c g (try_broadcast_tcp write_fails e g).0
  unfolding try_broadcast_tcp
  try_broadcast_tcp-Keeps e g =
      try_send_all_tcp-Keeps e (get_broadcast_connections true g.connections) g

  try_greet-Keeps : (x : HubInfo) (g : Gateway) → Keeps c g (try_greet write_fails tcp x g).0
  unfolding try_greet
  try_greet-Keeps x g =
      Keeps-either c g x.initialized (g, none) _ (omega arith, refl)
        (Keeps-and_then c g (try_test_tcp write_fails tcp x g) (λ h. (tell x h, none))
          (try_send_tcp-Keeps _ x.client g) (tell-Keeps c x))

  try_process_info-Keeps :
      (m : InfoMessage) (g : Gateway)
      → Keeps c g (try_process_info write_fails tcp m none (some c) g).0
  unfolding try_process_info
  try_process_info-Keeps m g =
      let h = record g { connections = enrol m none (some c) g.connections } in
      let enrolled = uses-enrol c m none g.connections in
      elim (Option-cases (get_hub m.id h.connections)) [
        | inl e ↦ rw (e, try_process_info) (enrolled, refl)
        | inr (x, e) ↦
            rw (e, try_process_info)
              (Keeps-trans c g h
                (and_then (try_broadcast_tcp write_fails (hub_info x) h)
                  (try_greet write_fails tcp x)).0
                (enrolled, refl)
                (Keeps-and_then c h (try_broadcast_tcp write_fails (hub_info x) h)
                  (try_greet write_fails tcp x) (try_broadcast_tcp-Keeps (hub_info x) h)
                  (try_greet-Keeps x)))
      ]

uses-update_past_external :
    (c : ℕ) (m : InfoMessage) (xs : List HubInfo) → uses c xs ≤ uses c (update_past_external m xs)
unfolding update_past_external
uses-update_past_external c m xs = elim (Option-cases (get_hub m.id xs)) [
  | inl e ↦ rw (e, update_past_external) (omega arith)
  | inr (x, e) ↦ rw (e, update_past_external) (uses-change c m.id _ xs (λ y h. h))
]

-- Whatever message comes in, and whether its handler throws or not, its client keeps its connections, and nothing is
-- closed.
pub process_message-Keeps :
    (write_fails : ℕ → Gateway → Bool) (c : ℕ) (m : GatewayMessage) (g : Gateway)
    → Keeps c g (process_message write_fails c m g).0
unfolding process_message try_relay_req try_process_broadcast
process_message-Keeps w c (info_message m to_the_end) g = try_process_info-Keeps w c m g
process_message-Keeps w c (info_message m not_to_external) g = (omega arith, refl)
process_message-Keeps w c (info_message m past_external) g =
    (uses-update_past_external c m g.connections, refl)
process_message-Keeps w c (req_message id recipient_id) g =
    elim (Option-cases (get_hub (some recipient_id) g.connections)) [
      | inl e ↦ rw (e, try_relay_req) (omega arith, refl)
      | inr (x, e) ↦ rw (e, try_relay_req) (try_send_tcp-Keeps w c _ x.client g)
    ]
process_message-Keeps w c (broadcast_message m) g = elim (Bool-cases (str_eq m.recipients "HUB")) [
  | inl e ↦
      rw (e, try_process_broadcast)
        (try_send_all_tcp-Keeps w c (broadcast m) (get_broadcast_connections false g.connections) g)
  | inr e ↦ rw (e, try_process_broadcast) (omega arith, refl)
]
process_message-Keeps w c keep_alive_message g = (omega arith, refl)
process_message-Keeps w c message_message g = (omega arith, refl)
