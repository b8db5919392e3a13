-- ===== src/Relay/InStep.antt =====
-- When the client shows the connections that its hub has.
use blockcore_gateway.Common.{
  String, ◌≡◌, ◌≢◌, ◌⊎◌, refl, ap, subst, inl, inr, none, some, List, [], ◌∷◌, ◌++◌, All, arith,
  str_eq, str_eq_iff, Bool-cases,
}
use blockcore_gateway.Peers.{HubEvent}
use blockcore_gateway.Peers.Located.{HasId, Located}
use blockcore_gateway.Relay.{Connection, get_connection, remove_connection}

-- The peers are the connections, one for one and in their order, by their ids.
abbrev pub InStep : List Connection → List HubEvent → Type 0
InStep [] [] = Unit
InStep [] (p ∷ ps) = ⊥
InStep (c ∷ cs) [] = ⊥
InStep (c ∷ cs) (p ∷ ps) = HasId (some c.id) p × InStep cs ps

-- The first connection with an id, and the connections on both sides.
pub record Holds (id : String) (cs : List Connection) : Type 0 where
  pub before : List Connection
  pub connection : Connection
  pub behind : List Connection
  pub whole : cs ≡ before ++ connection ∷ behind
  pub same : connection.id ≡ id
  pub differ : All (λ c. c.id ≢ id) before

pub holds : (id : String) (cs : List Connection) → Holds id cs ⊎ All (λ c. c.id ≢ id) cs
holds id [] = inr tt
holds id (c ∷ cs) = elim (Bool-cases (str_eq c.id id)) [
  | inl e ↦ inl (record {
    before = [];
    connection = c;
    behind = cs;
    whole = refl;
    same = (str_eq_iff c.id id).0 e;
    differ = tt;
  })
  | inr e ↦ elim (holds id cs) [
    | inl h ↦ inl (record {
      before = c ∷ h.before;
      connection = h.connection;
      behind = h.behind;
      whole = ap (c ∷◌) h.whole;
      same = h.same;
      differ = (ground (arith, str_eq_iff c.id id), h.differ);
    })
    | inr n ↦ inr (ground (arith, str_eq_iff c.id id), n)
  ]
]

pub get_connection-unknown :
    (id : String) (cs : List Connection) → All (λ c. c.id ≢ id) cs → get_connection id cs ≡ none
unfolding get_connection
get_connection-unknown id [] n = refl
get_connection-unknown id (c ∷ cs) (n, ns) =
    ground (arith, str_eq_iff c.id id, get_connection-unknown id cs ns)

module _ (id : String) (c : Connection) (behind : List Connection) (same : c.id ≡ id) where
  pub get_connection-append :
      (before : List Connection)
      → All (λ d. d.id ≢ id) before
      → get_connection id (before ++ c ∷ behind) ≡ some c
  unfolding get_connection
  get_connection-append [] n = ground (arith, str_eq_iff c.id id)
  get_connection-append (b ∷ bs) (n, ns) =
      ground (arith, str_eq_iff b.id id, get_connection-append bs ns)

  pub remove_connection-append :
      (before : List Connection)
      → All (λ d. d.id ≢ id) before
      → remove_connection id (before ++ c ∷ behind) ≡ before ++ behind
  unfolding remove_connection
  remove_connection-append [] n = ground (arith, str_eq_iff c.id id)
  remove_connection-append (b ∷ bs) (n, ns) =
      ground (arith, str_eq_iff b.id id, remove_connection-append bs ns)

  -- The peer of a connection, with the peers on both sides.
  pub InStep-append_inv :
      (before : List Connection) (ps : List HubEvent)
      → All (λ d. d.id ≢ id) before
      → InStep (before ++ c ∷ behind) ps
      → (l : Located (some id) ps) × InStep before l.before × InStep behind l.behind
  InStep-append_inv [] [] n h = elim h [ ]
  InStep-append_inv (b ∷ bs) [] n h = elim h [ ]
  InStep-append_inv [] (p ∷ ps) n (f, h) = (
    record {
      before = [];
      peer = p;
      behind = ps;
      parts = refl;
      found = subst (λ i. HasId (some i) p) same f;
      others = tt;
    },
    tt,
    h,
  )
  InStep-append_inv (b ∷ bs) (p ∷ ps) (n, ns) ((o, e), h) =
      let (l, x, y) = InStep-append_inv bs ps ns h in
      (
        record {
          before = p ∷ l.before;
          peer = l.peer;
          behind = l.behind;
          parts = ap (p ∷◌) l.parts;
          found = l.found;
          others = ((record { id = some b.id; other = o }, e, λ q. n cc), l.others);
        },
        ((o, e), x),
        y,
      )

pub InStep-append :
    (cs ds : List Connection) (ps qs : List HubEvent)
    → InStep cs ps
    → InStep ds qs
    → InStep (cs ++ ds) (ps ++ qs)
InStep-append [] ds (p ∷ ps) qs h g = elim h [ ]
InStep-append (c ∷ cs) ds [] qs h g = elim h [ ]
InStep-append [] ds [] qs h g = g
InStep-append (c ∷ cs) ds (p ∷ ps) qs (f, h) g = (f, InStep-append cs ds ps qs h g)
