-- ===== src/HubNode/Publishing.antt =====
-- How often a hub publishes that another one has changed, while Acks of that one come in.
use blockcore_gateway.Common.{
  ℕ, zero, suc, ◌+◌, ◌≤◌, Bool, false, none, some, ◌≡◌, refl, ◌&&◌, not, ◌==◌, if◌then◌else◌,
  length, length-append, arith, inl, inr, Option-cases, [], ◌∷◌,
}
use blockcore_gateway.Js.Text.{Text, equal}
use blockcore_gateway.Js.Text.Search.{}
use blockcore_gateway.HubNode.{HubInfo}
use blockcore_gateway.HubNode.Acking.{IpEndpoint, AckState, get_hub_info, answer_to, learn_port}
use blockcore_gateway.HubNode.Acknowledged.{known_endpoint, get_hub_info-id}
use blockcore_gateway.HubNode.Meeting.{request_of, hear, heard_before}
use blockcore_gateway.HubNode.Heard.{
  learned, get_hub_info-change, hear-answer_to, hear-unknown, entry_of,
}

abbrev has_moved : IpEndpoint → IpEndpoint → Bool
has_moved e k = equal k.address e.address && not (k.port == e.port)

has_moved-learn_port : (e k : IpEndpoint) → has_moved e (learn_port e k) ≡ false
unfolding learn_port
has_moved-learn_port e k = ground arith

module _ (id : Text) (e : IpEndpoint) where
  -- 1 where the hub `id` is known at the address of `e` with another port.
  abbrev pub pending : AckState → ℕ
  pending s = elim (known_endpoint id s) [ none ↦ 0 | some k ↦ if has_moved e k then 1 else 0 ]

  module _ (s : AckState) (known : IpEndpoint) (h : HubInfo IpEndpoint Text)
      (found : get_hub_info id s.connections ≡ some h)
      (external : h.external_endpoint ≡ some known) where
    pending-known : pending s ≡ (if has_moved e known then 1 else 0)
    pending-known = ground (arith, found, external)

    pending-answer_to : pending (answer_to (request_of id) e h known s) ≡ 0
    unfolding answer_to
    pending-answer_to =
        let changed =
          get_hub_info-change id (learned e known h) h s.connections found
            (get_hub_info-id id s.connections h found) in
        ground (arith, changed, has_moved-learn_port e known)

    published-answer_to :
        length (answer_to (request_of id) e h known s).published
        ≡ length s.published + (if has_moved e known then 1 else 0)
    unfolding answer_to
    published-answer_to = ground (
      arith,
      length-append s.published (record h { external_endpoint = some (learn_port e known) } ∷ []),
    )

  hear-published :
      (s : AckState)
      → length (hear (request_of id) e s).published + pending (hear (request_of id) e s)
        ≡ length s.published + pending s
  hear-published s = elim (Option-cases (known_endpoint id s)) [
    | inl unknown ↦ rw (hear-unknown id e s unknown) refl
    | inr (j, k) ↦
        let (h, known, found, external) = entry_of id e s (λ unknown. ground (arith, k, unknown)) in
        rw (hear-answer_to id e s known h found external) (
          omega (
            arith,
            pending-known s known h found external,
            pending-answer_to s known h found external,
            published-answer_to s known h found external,
          ))
  ]

  -- Acks of the hub `id` come in, all from one endpoint, some of them lost.
  module _ (delivered : ℕ → Bool) (first : AckState) where
    -- However many Acks of a hub come in from one endpoint, the number of the changes that are published, with one more
    -- while the hub is known at that address with another port, stays the same: at most one change is published.
    pub heard_before-published :
        (n : ℕ)
        → let s = heard_before id (λ k. e) delivered first n in
          (length s.published + pending s ≡ length first.published + pending first)
          × (length s.published ≤ length first.published + 1)
    unfolding heard_before
    heard_before-published zero = (refl, omega arith)
    heard_before-published (suc n) =
        let s = heard_before id (λ k. e) delivered first n in
        ground (arith, hear-published s, heard_before-published n)
