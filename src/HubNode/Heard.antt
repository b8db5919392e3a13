-- ===== src/HubNode/Heard.antt =====
-- What a hub that is asked again and again answers.
use mathlib.Core.List.{}
use blockcore_gateway.Common.{
  ℕ, zero, suc, Bool, true, none, some, List, [], ◌∷◌, ◌++◌, ◌≡◌, ◌≢◌, refl, drop, length,
  drop-append, arith, inl, inr, Option-cases, ap,
}
use blockcore_gateway.Js.Text.{Text}
use blockcore_gateway.Js.Text.Search.{equal_iff}
use blockcore_gateway.HubNode.{HubInfo}
use blockcore_gateway.HubNode.Reaching.{Ack, take_ack}
use blockcore_gateway.HubNode.Acking.{
  IpEndpoint, AckMessage, AckState, get_hub_info, change_hub_info, answer_to, process_ack,
  learn_port, learn_address,
}
use blockcore_gateway.HubNode.Acknowledged.{known_endpoint, get_hub_info-id}
use blockcore_gateway.HubNode.Answering.{take_ack-append}
use blockcore_gateway.HubNode.Meeting.{
  request_of, hear, replies, to_acks, heard_before, answers_to, coming_in,
}

pub get_hub_info-change :
    (id : Text) (g h : HubInfo IpEndpoint Text) (hs : List (HubInfo IpEndpoint Text))
    → get_hub_info id hs ≡ some h
    → g.id ≡ id
    → get_hub_info id (change_hub_info id g hs) ≡ some g
unfolding get_hub_info change_hub_info
get_hub_info-change id g h [] e s = absurd (ground arith)
get_hub_info-change id g h (x ∷ xs) e s =
    ground (arith, get_hub_info-change id g h xs, equal_iff g.id id)

-- What is kept of a hub that has asked from there.
abbrev pub learned : IpEndpoint → IpEndpoint → HubInfo IpEndpoint Text → HubInfo IpEndpoint Text
learned from known h = record h {
  external_endpoint = some (learn_port from known);
  internal_addresses = learn_address from known h.internal_addresses;
}

drop-length : {A : Type 0} (xs : List A) → drop (length xs) xs ≡ []
drop-length [] = refl
drop-length (x ∷ xs) = drop-length xs

abbrev reply_of : Text → AckState → AckMessage
reply_of id s = record { id = id; recipient_id = some s.local_id; response = true }

module _ (id : Text) (from : IpEndpoint) (s : AckState) where
  pub hear-answer_to :
      (known : IpEndpoint) (h : HubInfo IpEndpoint Text)
      → get_hub_info id s.connections ≡ some h
      → h.external_endpoint ≡ some known
      → hear (request_of id) from s ≡ answer_to (request_of id) from h known s
  unfolding hear process_ack answer_to
  hear-answer_to known h found external = rw (found, hear, process_ack, external) refl

  pub entry_of :
      known_endpoint id s ≢ none
      → (h : HubInfo IpEndpoint Text) × (known : IpEndpoint) × (get_hub_info id s.connections
          ≡ some h)
        × (h.external_endpoint ≡ some known)
  entry_of k = elim (Option-cases (get_hub_info id s.connections)) [
    | inl e ↦ absurd (k (ground arith))
    | inr (h, found) ↦ elim (Option-cases h.external_endpoint) [
      | inl e ↦ absurd (k (ground arith))
      | inr (known, external) ↦ (h, known, found, external)
    ]
  ]

  hear-local_id : (hear (request_of id) from s).local_id ≡ s.local_id
  unfolding hear process_ack answer_to
  hear-local_id = ground arith

  -- The sender of a request that is known stays known, and gets one reply.
  hear-known : known_endpoint id s ≢ none → known_endpoint id (hear (request_of id) from s) ≢ none
  unfolding answer_to
  hear-known k =
      let (h, known, found, external) = entry_of k in
      rw (hear-answer_to known h found external) (
        rw
          (
            known_endpoint,
            get_hub_info-change id (learned from known h) h s.connections found
                (get_hub_info-id id s.connections h found),
          )
          (λ e. ground (arith, e)))

  replies-known :
      known_endpoint id s ≢ none → replies (request_of id) from s ≡ (from, reply_of id s) ∷ []
  unfolding replies answer_to
  replies-known k =
      let (h, known, found, external) = entry_of k in
      rw (hear-answer_to known h found external) (drop-append s.sent _)

pub hear-unknown :
    (id : Text) (from : IpEndpoint) (s : AckState)
    → known_endpoint id s ≡ none
    → hear (request_of id) from s ≡ s
unfolding hear process_ack
hear-unknown id from s e = ground arith

module _ (id : Text) (source : ℕ → IpEndpoint) (delivered : ℕ → Bool) (first : AckState) where
  abbrev at : ℕ → AckState
  at = heard_before id source delivered first

  abbrev incoming : List ℕ → List Ack
  incoming = coming_in id source delivered first

  heard_before-local_id : (n : ℕ) → (at n).local_id ≡ first.local_id
  unfolding heard_before
  heard_before-local_id zero = refl
  heard_before-local_id (suc n) =
      ground (arith, heard_before-local_id n, hear-local_id id (source n) (at n))

  heard_before-known : known_endpoint id first ≢ none → (n : ℕ) → known_endpoint id (at n) ≢ none
  unfolding heard_before
  heard_before-known k zero = k
  heard_before-known k (suc n) =
      ground (arith, heard_before-known k n, hear-known id (source n) (at n))

  heard_before-unknown : known_endpoint id first ≡ none → (n : ℕ) → at n ≡ first
  unfolding heard_before
  heard_before-unknown e zero = refl
  heard_before-unknown e (suc n) =
      ground (arith, heard_before-unknown e n, hear-unknown id (source n) first e)

  answers_to-unknown :
      known_endpoint id first ≡ none → (n : ℕ) → answers_to id source delivered first n ≡ []
  unfolding answers_to replies to_acks
  answers_to-unknown e n =
      ground (
        arith,
        heard_before-unknown e n,
        hear-unknown id (source n) first e,
        drop-length first.sent,
      )

  answers_to-known :
      known_endpoint id first ≢ none
      → (n : ℕ) → delivered n ≡ true
      → answers_to id source delivered first n
        ≡ record { id = id; recipient_id = some first.local_id } ∷ []
  unfolding answers_to to_acks
  answers_to-known k n d =
      rw (d, replies-known id (source n) (at n) (heard_before-known k n))
        (ap (λ l. record { id = id; recipient_id = some l } ∷ []) (heard_before-local_id n))

  pub coming_in-unknown : known_endpoint id first ≡ none → (ns : List ℕ) → incoming ns ≡ []
  unfolding coming_in
  coming_in-unknown e [] = refl
  coming_in-unknown e (n ∷ ns) = ground (arith, answers_to-unknown e n, coming_in-unknown e ns)

  -- An answer among others is one of the hub that was asked.
  pub coming_in-known :
      known_endpoint id first ≢ none
      → (before after : List ℕ) (n : ℕ) → delivered n ≡ true
      → take_ack first.local_id (incoming (before ++ n ∷ after)) ≢ none
  unfolding coming_in take_ack
  coming_in-known k [] after n d =
      rw (answers_to-known k n d) (ground (arith, equal_iff first.local_id first.local_id))
  coming_in-known k (m ∷ before) after n d = λ e. coming_in-known k before after n d (
      take_ack-append first.local_id (answers_to id source delivered first m)
        (incoming (before ++ n ∷ after)) e)
