-- ===== src/Routes/Tests.antt =====
-- Runs of the router on the urls of the client, with the router that takes the first fit.
use blockcore_gateway.Common.{◌≡◌, ◌≢◌, refl, none, some, [], ◌∷◌, All, ◌↔◌}
use blockcore_gateway.Js.Text.{text}
use blockcore_gateway.Js.Number.{decimal}
use blockcore_gateway.Search.{block_number}
use blockcore_gateway.Routes.{setup, hubs, ticker, block, routes, home_url, target_url}
use blockcore_gateway.Routes.Recognition.{first_fit}
use blockcore_gateway.Routes.Navigation.{root_names, recognize-target_url, recognize-chain}

-- The home page leads to the page of the setup.
home_leads : first_fit routes home_url ≡ some (record { page = setup; parameters = [] })
unfolding routes home_url
home_leads = refl

-- A chain called `hubs` has no page of its own.
shadowed : first_fit routes (text "hubs" ∷ []) ≡ some (record { page = hubs; parameters = [] })
unfolding routes
shadowed = refl

unknown : first_fit routes (text "city" ∷ text "wallet" ∷ []) ≡ none
unfolding routes
unknown = refl

recognize-target_url_example :
    first_fit routes (target_url (text "setup") (block_number 12))
    ≡ some (record {
      page = block;
      parameters = (text "chain", text "setup") ∷ (text "block", text "12") ∷ [];
    })
unfolding target_url decimal
recognize-target_url_example =
    recognize-target_url first_fit (λ rs u. refl) (text "setup") (block_number 12)

recognize-chain_example :
    (first_fit routes (text "city" ∷ [])
      ≡ some (record { page = ticker; parameters = (text "chain", text "city") ∷ [] }))
    ↔ All (λ name. text name ≢ text "city") root_names
recognize-chain_example = recognize-chain first_fit (λ rs u. refl) (text "city")
