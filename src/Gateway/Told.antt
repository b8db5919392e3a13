-- ===== src/Gateway/Told.antt =====
-- What a hub that joins the gateway is told, and when.
use mathlib.Core.List.{append-nil, append_assoc}
use blockcore_gateway.Common.{
  ℕ, String, ◌≡◌, refl, sym, ap, ◌∙◌, subst, true, false, Option, some, List, [], ◌∷◌, ◌++◌, map,
  opt_eq_iff, arith,
}
use blockcore_gateway.Gateway.{HubInfo, Entity, hub_info, other, Gateway, send_tcp, send_udp}
use blockcore_gateway.Gateway.Sending.{
  receiver, receivers, send_tcp-receiver, broadcast_tcp-receivers,
}
use blockcore_gateway.Gateway.Joining.{
  InfoMessage, ProtocolType, tcp, udp, get_hub, change, add_or_update, enrol, send_connections,
  test_udp, test_tcp, tell, greet, process_info, or_kept,
}

-- What the loop sends, and where to.
abbrev pub to_each : ℕ → List HubInfo → List (ℕ × Entity)
to_each endpoint xs = map (λ x. (endpoint, hub_info x)) xs

pub send_connections-to_each :
    (xs : List HubInfo) (e : Option ℕ) (g : Gateway)
    → send_connections xs e g ≡ record g { sent_udp = g.sent_udp ++ to_each g.udp_endpoint xs }
unfolding send_connections send_udp
send_connections-to_each [] e g = ap (λ s. record g { sent_udp = s }) (sym (append-nil g.sent_udp))
send_connections-to_each (x ∷ xs) e g =
    send_connections-to_each xs e (send_udp (hub_info x) e g)
    ∙ ap (λ s. record g { sent_udp = s })
        (append_assoc g.sent_udp ((g.udp_endpoint, hub_info x) ∷ []) (to_each g.udp_endpoint xs))

pub get_hub-change :
    (id : Option String) (f : HubInfo → HubInfo) (x : HubInfo) (xs : List HubInfo)
    → ((y : HubInfo) → (f y).id ≡ y.id)
    → get_hub id xs ≡ some x
    → get_hub id (change id f xs) ≡ some (f x)
unfolding get_hub change
get_hub-change id f x [] same e = absurd (ground arith)
get_hub-change id f x (y ∷ ys) same e =
    ground
      (arith, same y, get_hub-change id f x ys same, opt_eq_iff y.id id, opt_eq_iff (f y).id id)

pub get_hub-id :
    (id : Option String) (x : HubInfo) (xs : List HubInfo) → get_hub id xs ≡ some x → x.id ≡ id
unfolding get_hub
get_hub-id id x [] e = absurd (ground arith)
get_hub-id id x (y ∷ ys) e = ground (arith, opt_eq_iff y.id id, get_hub-id id x ys)

abbrev tests : ProtocolType → ℕ → List (ℕ × Entity)
tests tcp endpoint = []
tests udp endpoint = (endpoint, other "UDP Communication Test") ∷ []

-- The test by TCP sends nothing by UDP.
pub test_tcp-udp :
    (protocol : ProtocolType) (x : HubInfo) (g : Gateway)
    → (l : List (ℕ × Entity)) × (test_tcp protocol x g ≡ record g { sent_tcp = l })
unfolding send_tcp
test_tcp-udp udp x g = (g.sent_tcp, refl)
test_tcp-udp tcp x g = (
  g.sent_tcp ++ receiver g.opened (other "TCP Communication Test") x.client,
  send_tcp-receiver (other "TCP Communication Test") x.client g,
)

test_udp-tests :
    (protocol : ProtocolType) (x : HubInfo) (e : ℕ) (g : Gateway)
    → x.external_endpoint ≡ some e
    → test_udp protocol x g ≡ record g { sent_udp = g.sent_udp ++ tests protocol g.udp_endpoint }
unfolding send_udp
test_udp-tests tcp x e g k = ap (λ s. record g { sent_udp = s }) (sym (append-nil g.sent_udp))
test_udp-tests udp x e g k = ground (arith, k)

tell_complete :
    (x : HubInfo) (c e : ℕ) (g : Gateway)
    → x.client ≡ some c
    → x.external_endpoint ≡ some e
    → tell x g ≡ record g {
      sent_udp = g.sent_udp ++ to_each g.udp_endpoint g.connections;
      connections = change x.id (λ y. record y { initialized = true }) g.connections;
    }
unfolding tell
tell_complete x c e g has_client has_endpoint =
    rw (has_client, has_endpoint, tell)
      (ap
        (λ (h : Gateway). record h {
          connections = change x.id (λ y. record y { initialized = true }) h.connections;
        })
        (send_connections-to_each g.connections (some e) g))

pub greet-new :
    (protocol : ProtocolType) (x : HubInfo) (g : Gateway)
    → x.initialized ≡ false
    → greet protocol x g ≡ tell x (test_tcp protocol x (test_udp protocol x g))
unfolding greet
greet-new protocol x g new = rw (new, greet) refl

pub greet-old :
    (protocol : ProtocolType) (x : HubInfo) (g : Gateway)
    → x.initialized ≡ true
    → greet protocol x g ≡ g
unfolding greet
greet-old protocol x g old = rw (old, greet) refl

greet-tells :
    (protocol : ProtocolType) (x : HubInfo) (c e : ℕ) (g : Gateway)
    → x.initialized ≡ false
    → x.client ≡ some c
    → x.external_endpoint ≡ some e
    → (l : List (ℕ × Entity)) × (greet protocol x g ≡ record g {
      sent_tcp = l;
      sent_udp =
          (g.sent_udp ++ tests protocol g.udp_endpoint) ++ to_each g.udp_endpoint g.connections;
      connections = change x.id (λ y. record y { initialized = true }) g.connections;
    })
greet-tells protocol x c e g new has_client has_endpoint =
    let t = record g { sent_udp = g.sent_udp ++ tests protocol g.udp_endpoint } in
    let (l, by_tcp) = test_tcp-udp protocol x t in
    (
      l,
      greet-new protocol x g new
          ∙ ap (λ h. tell x (test_tcp protocol x h)) (test_udp-tests protocol x e g has_endpoint)
          ∙ ap (tell x) by_tcp
          ∙ tell_complete x c e (record t { sent_tcp = l }) has_client has_endpoint,
    )

pub process_info-greet :
    (protocol : ProtocolType) (m : InfoMessage) (endpoint client : Option ℕ) (g : Gateway)
    (x : HubInfo)
    → get_hub m.id (enrol m endpoint client g.connections) ≡ some x
    → (l : List (ℕ × Entity)) × (process_info protocol m endpoint client g
        ≡ greet protocol x
            (record g { connections = enrol m endpoint client g.connections; sent_tcp = l }))
unfolding process_info
process_info-greet protocol m endpoint client g x found = (
  g.sent_tcp ++ receivers g.opened (hub_info x) (enrol m endpoint client g.connections),
  rw (found, process_info)
      (ap (greet protocol x) (
        broadcast_tcp-receivers (hub_info x)
          (record g { connections = enrol m endpoint client g.connections }))),
)

-- When a hub is enrolled that has not been told of the others, and both of its ends are known, what is known of each
-- hub is sent once, in the order of the connections, behind the test of a message by UDP, and the hub counts as
-- told. All of it goes to the endpoint that the last datagram came from.
pub process_info-tells :
    (protocol : ProtocolType) (m : InfoMessage) (endpoint client : Option ℕ) (g : Gateway)
    (x : HubInfo) (c e : ℕ)
    → get_hub m.id (enrol m endpoint client g.connections) ≡ some x
    → x.initialized ≡ false
    → x.client ≡ some c
    → x.external_endpoint ≡ some e
    → let h = process_info protocol m endpoint client g in
      (h.sent_udp
        ≡ (g.sent_udp ++ tests protocol g.udp_endpoint)
          ++ to_each g.udp_endpoint (enrol m endpoint client g.connections))
      × (get_hub m.id h.connections ≡ some (record x { initialized = true }))
process_info-tells protocol m endpoint client g x c e found new has_client has_endpoint =
    let (l, greeted) = process_info-greet protocol m endpoint client g x found in
    let (k, told) =
      greet-tells protocol x c e
        (record g { connections = enrol m endpoint client g.connections; sent_tcp = l }) new
        has_client has_endpoint in
    (
      ap (λ (h : Gateway). h.sent_udp) (greeted ∙ told),
      ap (λ (h : Gateway). get_hub m.id h.connections) (greeted ∙ told)
          ∙ subst
              (λ i.
                get_hub m.id (
                  change i (λ y. record y { initialized = true })
                    (enrol m endpoint client g.connections))
                ≡ some (record x { initialized = true }))
              (sym (get_hub-id m.id x _ found))
              (get_hub-change m.id (λ y. record y { initialized = true }) x _ (λ y. refl) found),
    )

add_or_update-known :
    (m : InfoMessage) (xs : List HubInfo) (x : HubInfo)
    → get_hub m.id xs ≡ some x
    → get_hub m.id (add_or_update m xs)
      ≡ some (record x { external_endpoint = or_kept m.external_endpoint x.external_endpoint })
unfolding add_or_update
add_or_update-known m xs x found =
    rw (found, add_or_update) (get_hub-change m.id _ x xs (λ y. refl) found)

-- The entry of a hub that is known already.
pub enrol-known :
    (m : InfoMessage) (endpoint client : Option ℕ) (xs : List HubInfo) (x : HubInfo)
    → get_hub m.id xs ≡ some x
    → (y : HubInfo) × (get_hub m.id (enrol m endpoint client xs) ≡ some y)
      × (y.initialized ≡ x.initialized)
unfolding enrol
enrol-known m endpoint client xs x found = (
  _,
  get_hub-change m.id _ _ (add_or_update m xs) (λ y. refl) (add_or_update-known m xs x found),
  refl,
)

-- A hub that has been told of the others stays so, and its further messages about itself send nothing by UDP.
pub process_info-once :
    (protocol : ProtocolType) (m : InfoMessage) (endpoint client : Option ℕ) (g : Gateway)
    (x : HubInfo)
    → get_hub m.id g.connections ≡ some x
    → x.initialized ≡ true
    → let h = process_info protocol m endpoint client g in
      (h.sent_udp ≡ g.sent_udp)
      × ((y : HubInfo) × (get_hub m.id h.connections ≡ some y) × (y.initialized ≡ true))
process_info-once protocol m endpoint client g x known told =
    let (y, found, same) = enrol-known m endpoint client g.connections x known in
    let (l, greeted) = process_info-greet protocol m endpoint client g y found in
    let quiet = greeted ∙ greet-old protocol y _ (same ∙ told) in
    (
      ap (λ (h : Gateway). h.sent_udp) quiet,
      (y, ap (λ (h : Gateway). get_hub m.id h.connections) quiet ∙ found, same ∙ told),
    )
