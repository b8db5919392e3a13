-- ===== src/Paging/Chains.antt =====
-- The page of blocks while chains are chosen: `ngOnInit` of explorer/blocks/blocks.component.ts, below
-- src/Blockcore.Hub/ClientApp/src/app.
use mathlib.Core.List.{append_assoc, append-nil}
use blockcore_gateway.Common.{◌≡◌, refl, sym, ap, ◌∙◌, Option, some, List, [], ◌∷◌, ◌++◌, All}
use blockcore_gateway.Js.Sort.{sort_desc}
use blockcore_gateway.Js.Text.{Text, text}
use blockcore_gateway.LinkHeader.{link, parse_link_header}
use blockcore_gateway.Paging.{
  Pager, Page, Block, blocks_kind, page_base, or_empty, update, begin, on_response, on_body,
}

-- `'/api/query/block?limit=' + this.limit`
abbrev pub first_blocks : Text
first_blocks = text "/api/query/block?limit=20"

-- A chain that is chosen: the base url of its indexer, and the answers to the requests that follow.
pub record Chosen : Type 0 where
  pub base : Text
  pub server : Text → Option (Page Block)

-- What the subscription to the current chain does, from beginning to end.
unfoldable pub on_chain_chosen : Chosen → Pager Block → Pager Block
on_chain_chosen c p = (update blocks_kind c.base c.server (some first_blocks) p).0

unfoldable pub on_chains_chosen : List Chosen → Pager Block → Pager Block
on_chains_chosen [] p = p
on_chains_chosen (c ∷ cs) p = on_chains_chosen cs (on_chain_chosen c p)

-- The first page of a chain that answers: the blocks that it hands out, and the header with its links.
pub record Answers (c : Chosen) : Type 0 where
  pub page : Page Block
  pub header : Text
  pub blocks : List Block
  pub answered : c.server (page_base c.base ++ first_blocks) ≡ some page
  pub with_header : page.link_header ≡ some header
  pub with_blocks : page.body ≡ some blocks

abbrev pub newest_first : List Block → List Block
newest_first = sort_desc (λ b. b.block_index)

on_chain_chosen-items :
    (c : Chosen) (p : Pager Block) (a : Answers c)
    → ((on_chain_chosen c p).items ≡ some (or_empty p.items ++ newest_first a.blocks))
      × ((on_chain_chosen c p).next ≡ link (text "previous") (parse_link_header a.header))
unfolding on_chain_chosen update begin on_response on_body
on_chain_chosen-items c p a = rw (a.answered, a.with_header, a.with_blocks) (refl, refl)

-- The first pages of the chains, each with its newest block first.
abbrev pub first_pages : (cs : List Chosen) → All Answers cs → List Block
first_pages [] a = []
first_pages (c ∷ cs) (a, as_) = newest_first a.blocks ++ first_pages cs as_

-- However many chains are chosen, one after the other, with indexers that answer, the first page of each is appended to
-- what is listed: the blocks of the chains that were chosen before stay, and a chain that is chosen again is listed
-- again.
pub on_chains_chosen-items :
    (cs : List Chosen) (as_ : All Answers cs) (p : Pager Block)
    → or_empty (on_chains_chosen cs p).items ≡ or_empty p.items ++ first_pages cs as_
unfolding on_chains_chosen
on_chains_chosen-items [] a p = sym (append-nil (or_empty p.items))
on_chains_chosen-items (c ∷ cs) (a, as_) p =
    on_chains_chosen-items cs as_ (on_chain_chosen c p)
    ∙ ap (λ o. or_empty o ++ first_pages cs as_) (on_chain_chosen-items c p a).0
    ∙ append_assoc (or_empty p.items) (newest_first a.blocks) (first_pages cs as_)
