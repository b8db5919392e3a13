-- ===== src/Paging.antt =====
-- The lists that grow as the user scrolls: `updateBlocks` of explorer/blocks/blocks.component.ts and
-- `updateTransactions` of explorer/block/block.component.ts and explorer/address/
-- address.component.ts (below src/Blockcore.Hub/ClientApp/src/app), with their `onScroll`.
pub mod Server
pub mod Scrolling
pub mod Chains
pub mod Interleaved
pub mod Accounted
mod Tests
use blockcore_gateway.Common.{
  ℕ, zero, suc, ◌+◌, ◌-◌, Bool, true, false, Option, none, some, List, [], ◌∷◌, ◌++◌, if◌then◌else◌,
}
use blockcore_gateway.Js.Sort.{sort_desc}
use blockcore_gateway.Js.Text.{Text, text, replace}
use blockcore_gateway.LinkHeader.{Links, link, parse_link_header}
use blockcore_gateway.Api.{Error, network_error, syntax_error, type_error}

-- The fields of a component that an update reads or writes. `requested`: the urls that it has
-- asked for, oldest first; `scheduled`: the timeouts of `onScroll` that are to come.
pub record Pager {ℓ} (A : Type ℓ) : Type ℓ where
  pub items : Option (List A)
  pub next : Option Text
  pub total : Option Text
  pub count : ℕ
  pub loading : Bool
  pub requested : List Text
  pub scheduled : ℕ

-- A response: two of its headers, and its body, where `none` is no JSON or no array.
pub record Page {ℓ} (A : Type ℓ) : Type ℓ where
  pub pagination_total : Option Text
  pub link_header : Option Text
  pub body : Option (List A)

-- `this.api.baseUrl.replace('/api', '')`, where the service has a base url; without one it throws.
unfoldable pub page_base : Text → Text
page_base base = replace (text "/api") [] base

-- What a component adds to the code that the three share: the relation of the link that it follows, and
-- what it does to the list of a page.
pub record Kind {ℓ} (A : Type ℓ) : Type ℓ where
  pub relation : Text
  pub arrange : List A → List A

-- `if (!url)`: the empty text counts as none.
abbrev pub present : Option Text → Option Text
present none = none
present (some []) = none
present (some (c ∷ s)) = some (c ∷ s)

-- What an update leaves behind, and the exception that it ends with, if any.
abbrev pub Outcome {ℓ} : Type ℓ → Type ℓ
Outcome A = Pager A × Option Error

module _ {ℓ} {A : Type ℓ} where
  pub new : Pager A
  new = record {
    items = none;
    next = none;
    total = none;
    count = 0;
    loading = false;
    requested = [];
    scheduled = 0;
  }

  -- The update up to its first `await`, at the base url of the service, which has one.
  pub begin : Text → Option Text → Pager A → Pager A
  begin base url p = elim (present url) [
    | none ↦ p
    | some u ↦ record p { requested = p.requested ++ (page_base base ++ u) ∷ [] }
  ]

  -- From the response to the `await` of its body. Without a `Link` header the parser throws.
  pub on_response : Kind A → Page A → Pager A → Outcome A
  on_response k page p = elim page.link_header [
    | none ↦ (record p { total = page.pagination_total }, some type_error)
    | some header ↦ (
      record p { total = page.pagination_total; next = link k.relation (parse_link_header header) },
      none,
    )
  ]

  abbrev pub or_empty : Option (List A) → List A
  or_empty none = []
  or_empty (some xs) = xs

  -- From the body to the end.
  pub on_body : Kind A → Page A → Pager A → Outcome A
  on_body k page p = elim page.body [
    | none ↦ (p, some syntax_error)
    | some list ↦
        (record p { items = some (or_empty p.items ++ k.arrange list); count = suc p.count }, none)
  ]

  abbrev and_then : Outcome A → (Pager A → Outcome A) → Outcome A
  and_then (p, none) f = f p
  and_then (p, some e) f = (p, some e)

  -- One update from beginning to end, against a server that answers by the url.
  pub update : Kind A → Text → (Text → Option (Page A)) → Option Text → Pager A → Outcome A
  unfolding begin on_response on_body
  update k base server url p = elim (present url) [
    | none ↦ (p, none)
    | some u ↦ elim (server (page_base base ++ u)) [
      | none ↦ (begin base url p, some network_error)
      | some page ↦ and_then (on_response k page (begin base url p)) (on_body k page)
    ]
  ]

  -- `onScroll` near the bottom, and its timeout, which reads the link when it runs.
  pub on_scroll : Bool → Pager A → Pager A
  on_scroll reaching_bottom p =
      if reaching_bottom then record p { loading = true; scheduled = suc p.scheduled } else p

  pub on_timeout : Text → Pager A → Pager A
  on_timeout base p = begin base p.next (record p { scheduled = p.scheduled - 1 })

  -- `this.loading = false`, which an update that throws does not reach.
  pub finish : Pager A → Pager A
  finish p = record p { loading = false }

  -- A scroll to the bottom that is over before the next event.
  pub scroll : Kind A → Text → (Text → Option (Page A)) → Pager A → Outcome A
  unfolding on_scroll update finish
  scroll k base server p =
      let q = on_scroll true p in
      and_then (update k base server q.next (record q { scheduled = q.scheduled - 1 }))
        (λ r. (finish r, none))

  pub scrolls : ℕ → Kind A → Text → (Text → Option (Page A)) → Pager A → Pager A
  scrolls zero k base server p = p
  scrolls (suc n) k base server p = scrolls n k base server (scroll k base server p).0

-- Blocks, the newest first within a page; the other two keep a page's order.
pub record Block : Type 0 where
  pub block_index : ℕ
  pub block_hash : Text

abbrev pub blocks_kind : Kind Block
blocks_kind = record { relation = text "previous"; arrange = sort_desc (λ b. b.block_index) }

abbrev pub address_kind {ℓ} : {A : Type ℓ} → Kind A
address_kind = record { relation = text "previous"; arrange = λ xs. xs }

abbrev pub block_kind {ℓ} : {A : Type ℓ} → Kind A
block_kind = record { relation = text "next"; arrange = λ xs. xs }

-- The update of each component, and its answer to a scroll that reaches the bottom.
module _ {ℓ} {A : Type ℓ} (base : Text) (server : Text → Option (Page A)) where
  pub update_address_transactions : Option Text → Pager A → Outcome A
  unfolding update
  update_address_transactions = update address_kind base server

  pub scroll_address : Pager A → Outcome A
  unfolding scroll
  scroll_address = scroll address_kind base server

  pub update_block_transactions : Option Text → Pager A → Outcome A
  unfolding update
  update_block_transactions = update block_kind base server

  pub scroll_block : Pager A → Outcome A
  unfolding scroll
  scroll_block = scroll block_kind base server
