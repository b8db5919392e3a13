-- ===== src/Paging/Interleaved.antt =====
-- The page of blocks as chains are chosen and the user scrolls while requests are under way: the subscription, `onScroll`
-- and `updateBlocks` of explorer/blocks/blocks.component.ts (below src/Blockcore.Hub/ClientApp/src/app), cut at each
-- `await`. The flag `loading` is left out here.
use blockcore_gateway.Common.{ℕ, suc, Option, none, some, List, [], ◌∷◌, ◌++◌, ◌≡◌, true}
use blockcore_gateway.Js.Text.{Text}
use blockcore_gateway.Api.{}
use blockcore_gateway.Paging.{
  Pager, Page, Block, blocks_kind, page_base, present, new, begin, on_response, on_body, on_scroll,
}
use blockcore_gateway.Paging.Chains.{first_blocks}

-- `base` is the base url of the service, once it has one. Of the urls that were asked for, `waiting` have no response yet, of
-- `reading` the body is awaited, `failed` ended with an exception, and `shown` are through, in the order in which they
-- came to be.
pub record Browsing : Type 0 where
  pub pager : Pager Block
  pub base : Option Text
  pub waiting : List Text
  pub reading : List Text
  pub failed : List Text
  pub shown : List Text

unfoldable pub page_opened : Option Text → Browsing
page_opened base = record {
  pager = new;
  base = base;
  waiting = [];
  reading = [];
  failed = [];
  shown = [];
}

-- `updateBlocks(url)` up to the `await` of its response. Without a base url, the `replace` in it throws before anything
-- is asked for.
unfoldable pub ask_blocks : Option Text → Browsing → Browsing
ask_blocks url b = elim b.base [
  | none ↦ b
  | some base ↦ record b {
    pager = begin base url b.pager;
    waiting = elim (present url) [
      | none ↦ b.waiting
      | some u ↦ b.waiting ++ (page_base base ++ u) ∷ []
    ];
  }
]

-- The response to `u`, which waits no more.
unfoldable pub respond_to : Text → Page Block → List Text → Browsing → Browsing
respond_to u page others b =
    let (p, thrown) = on_response blocks_kind page b.pager in
    elim thrown [
      | none ↦ record b { pager = p; waiting = others; reading = b.reading ++ u ∷ [] }
      | some e ↦ record b { pager = p; waiting = others; failed = b.failed ++ u ∷ [] }
    ]

-- The body of the response to `u`.
unfoldable pub read_body_of : Text → Page Block → List Text → Browsing → Browsing
read_body_of u page others b =
    let (p, thrown) = on_body blocks_kind page b.pager in
    elim thrown [
      | none ↦ record b { pager = p; reading = others; shown = b.shown ++ u ∷ [] }
      | some e ↦ record b { pager = p; reading = others; failed = b.failed ++ u ∷ [] }
    ]

-- An indexer that gives one answer to each url; none is a request that fails.
module _ (server : Text → Option (Page Block)) where
  pub data Step : Browsing → Browsing → Type 0 where
    -- `loadSetup` sets the base url, to none where the setup has no url; the subscription runs when the chain is passed on.
    set_base_url : (b : Browsing) (base : Option Text) → Step b (record b { base = base })
    choose : (b : Browsing) → Step b (ask_blocks (some first_blocks) b)
    scroll_down : (b : Browsing) → Step b (record b { pager = on_scroll true b.pager })
    run_timeout :
        (b : Browsing) (n : ℕ)
        → b.pager.scheduled ≡ suc n
        → Step b (ask_blocks b.pager.next (record b { pager = record b.pager { scheduled = n } }))
    respond :
        (b : Browsing) (before after : List Text) (u : Text) (page : Page Block)
        → b.waiting ≡ before ++ u ∷ after
        → server u ≡ some page
        → Step b (respond_to u page (before ++ after) b)
    no_answer :
        (b : Browsing) (before after : List Text) (u : Text)
        → b.waiting ≡ before ++ u ∷ after
        → server u ≡ none
        → Step b (record b { waiting = before ++ after; failed = b.failed ++ u ∷ [] })
    body_there :
        (b : Browsing) (before after : List Text) (u : Text) (page : Page Block)
        → b.reading ≡ before ++ u ∷ after
        → server u ≡ some page
        → Step b (read_body_of u page (before ++ after) b)

  pub data Reach (s : Browsing) : Browsing → Type 0 where
    here : Reach s s
    next : {t u : Browsing} → Reach s t → Step t u → Reach s u
