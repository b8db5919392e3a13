-- ===== src/Peers/Handler.antt =====
-- What the handler of `PeerService` does with each event.
use blockcore_gateway.Common.{
  String, Option, none, some, List, [], ◌∷◌, ◌++◌, ◌≡◌, refl, ◌≢◌, ◌⊎◌, inl, inr, ◌↔◌, arith, All,
  All-append, str_eq, str_eq_iff, Option-cases, if◌then◌else◌, ◌+◌, ◌≤◌, length-append, false, ap,
  sym, ◌∙◌, append-eq_self, ℕ, length,
}
use mathlib.Core.Option
use mathlib.Core.List.{append-nil}
use blockcore_gateway.Js.Array.{
  splice, assign, take-append_length, set-append_length, splice-none_append, All-splice, All-assign,
  length-splice-le, length-assign,
}
use blockcore_gateway.Peers.{
  HubEvent, PeerService, find_index, remove_at, replace_at, on_event, after,
}
use blockcore_gateway.Peers.Located.{
  HasId, HasOtherId, HasData, Located, locate, find_index-located, find_index-unknown,
}

abbrev pub IsUpdate : HubEvent → Type 0
IsUpdate e = (e.event_name ≡ "ConnectionUpdatedEvent") ⊎ (e.event_name ≡ "ConnectionStartedEvent")

abbrev pub IsRemoval : HubEvent → Type 0
IsRemoval e = e.event_name ≡ "ConnectionRemovedEvent"

abbrev pub IsAddition : HubEvent → Type 0
IsAddition e = e.event_name ≡ "ConnectionAddedEvent"

differ : (a b : String) → str_eq a b ≡ false → a ≢ b
differ a b h e = cc (h, (str_eq_iff a b).1 e)

names_differ :
    (◌≢◌ {A = String} "ConnectionAddedEvent" "ConnectionRemovedEvent")
    × (◌≢◌ {A = String} "ConnectionAddedEvent" "ConnectionUpdatedEvent")
    × (◌≢◌ {A = String} "ConnectionAddedEvent" "ConnectionStartedEvent")
    × (◌≢◌ {A = String} "ConnectionRemovedEvent" "ConnectionUpdatedEvent")
    × (◌≢◌ {A = String} "ConnectionRemovedEvent" "ConnectionStartedEvent")
names_differ = (differ _ _ refl, differ _ _ refl, differ _ _ refl, differ _ _ refl, differ _ _ refl)

module _ (message : HubEvent) (s : PeerService) where
  open s use {peers, stray}

  on_removal :
      IsRemoval message → on_event message s ≡ Option.map (remove_at s) (find_index message peers)
  unfolding on_event
  on_removal n = ground (
    arith,
    names_differ,
    str_eq_iff message.event_name "ConnectionAddedEvent",
    str_eq_iff message.event_name "ConnectionRemovedEvent",
  )

  on_update :
      IsUpdate message
      → on_event message s ≡ Option.map (replace_at message s) (find_index message peers)
  unfolding on_event
  on_update n = ground (
    arith,
    names_differ,
    str_eq_iff message.event_name "ConnectionAddedEvent",
    str_eq_iff message.event_name "ConnectionRemovedEvent",
    str_eq_iff message.event_name "ConnectionUpdatedEvent",
    str_eq_iff message.event_name "ConnectionStartedEvent",
  )

  module _ (i : Option String) (named : HasId i message) where
    -- The removal of a known peer drops that peer and every peer behind it.
    pub on_event-removal :
        IsRemoval message
        → (l : Located i peers) → on_event message s ≡ some (record s { peers = l.before })
    unfolding splice
    on_event-removal n l = ground (
      arith,
      on_removal n,
      find_index-located i message l.before l.peer l.behind named l.found l.others,
      take-append_length l.before (l.peer ∷ l.behind),
      l.parts,
    )

    -- The removal of an unknown peer drops the last peer.
    pub on_event-removal_unknown :
        IsRemoval message
        → (first : List HubEvent) (last : HubEvent) → peers ≡ first ++ last ∷ []
        → All (HasOtherId i) peers
        → on_event message s ≡ some (record s { peers = first })
    on_event-removal_unknown n first last e h = ground (
      arith,
      on_removal n,
      find_index-unknown i message peers named h,
      splice-none_append first last,
    )

    -- An update of a known peer puts the event in its place, and leaves the others as they were.
    pub on_event-update :
        IsUpdate message
        → (l : Located i peers)
        → on_event message s ≡ some (record s { peers = l.before ++ message ∷ l.behind })
    unfolding assign
    on_event-update n l = ground (
      arith,
      on_update n,
      find_index-located i message l.before l.peer l.behind named l.found l.others,
      set-append_length l.before l.behind l.peer message,
      l.parts,
    )

    -- An update of an unknown peer changes no peer: the event is kept under the property "-1".
    pub on_event-update_unknown :
        IsUpdate message
        → All (HasOtherId i) peers
        → on_event message s ≡ some (record { peers = peers; stray = some message })
    unfolding assign
    on_event-update_unknown n h =
        ground (arith, on_update n, find_index-unknown i message peers named h)

    -- A removal takes away that peer alone exactly when the peer is the last of the list.
    pub on_event-removal_iff :
        IsRemoval message
        → (l : Located i peers)
        → (on_event message s ≡ some (record s { peers = l.before ++ l.behind })) ↔ (l.behind ≡ [])
    on_event-removal_iff n l =
        let removed = on_event-removal n l in
        (
          λ e.
              append-eq_self l.before l.behind
                (ap (λ (t : Option PeerService). (after s t).peers) (sym removed ∙ e)),
          λ e. rw (e, append-nil l.before) removed,
        )

find_index-defined :
    (message : HubEvent) (ps : List HubEvent)
    → HasData message
    → All HasData ps
    → (r : Option ℕ) × (find_index message ps ≡ some r)
find_index-defined message ps (d, e) h = elim (locate d.id ps h) [
  | inl l ↦ (
    some (length l.before),
    rw l.parts
        (find_index-located d.id message l.before l.peer l.behind (d.other, e) l.found l.others),
  )
  | inr unknown ↦ (none, find_index-unknown d.id message ps (d.other, e) unknown)
]

-- An event with data, to peers with data: the handler throws nothing, and every peer has data
-- afterwards.
pub on_event-HasData :
    (message : HubEvent) (s : PeerService)
    → HasData message
    → All HasData s.peers
    → (t : PeerService) × (on_event message s ≡ some t) × All HasData t.peers
unfolding on_event
on_event-HasData message s d h =
    let (i, found) = find_index-defined message s.peers d h in
    let added = All-append HasData s.peers (message ∷ []) h (d, tt) in
    let removed = All-splice HasData i s.peers h in
    let updated = All-assign HasData i message s.peers h d in
    (after s (on_event message s), ground arith, ground arith)

-- How many peers an event can add.
abbrev pub additions : HubEvent → ℕ
additions e = if str_eq e.event_name "ConnectionAddedEvent" then 1 else 0

pub length-on_event-le :
    (message : HubEvent) (s : PeerService)
    → length (after s (on_event message s)).peers ≤ length s.peers + additions message
unfolding on_event
length-on_event-le message s = elim (Option-cases (find_index message s.peers)) [
  | inl e ↦ ground (arith, length-append s.peers (message ∷ []))
  | inr (i, e) ↦ ground (
    arith,
    length-append s.peers (message ∷ []),
    length-splice-le i s.peers,
    length-assign i message s.peers,
  )
]
