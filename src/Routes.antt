-- ===== src/Routes.antt =====
-- The routes of the client, src/Blockcore.Hub/ClientApp/src/app/app.module.ts, and the navigations of
-- search/search.component.ts, explorer/block/block.component.ts and home/home.component.ts. The router itself is
-- Angular's.
pub mod Recognition
pub mod Navigation
mod Tests
use blockcore_gateway.Common.{
  ℕ, Bool, true, false, Option, none, some, List, [], ◌∷◌, ◌++◌, ◌&&◌, if◌then◌else◌,
}
use blockcore_gateway.Js.Text.{Text, text, equal}
use blockcore_gateway.Js.Number.{decimal}
use blockcore_gateway.Search.{Target, block_number, block_hash, address_page, transaction_page}

-- The components that have a route.
pub data Page : Type 0 where
  home setup dashboard apps gateway hubs requests messages identity : Page
  ticker explorer blocks block transaction address network api about : Page

-- A segment of a path: itself, or any segment, under a name.
pub data Segment : Type 0 where
  literal : Text → Segment
  parameter : Text → Segment

-- Each route has no children, and resolves `chain` by the same service.
pub record Route : Type 0 where
  pub path : List Segment
  pub page : Page

-- A path of literals and of the parameter `:chain` in front.
abbrev at_root : Text → Page → Route
at_root name page = record { path = literal name ∷ []; page = page }

abbrev below_chain : List Segment → Page → Route
below_chain path page = record { path = parameter (text "chain") ∷ path; page = page }

unfoldable pub routes : List Route
routes =
    record { path = []; page = home }
    ∷ at_root (text "setup") setup
    ∷ at_root (text "dashboard") dashboard
    ∷ at_root (text "apps") apps
    ∷ at_root (text "gateway") gateway
    ∷ at_root (text "hubs") hubs
    ∷ at_root (text "requests") requests
    ∷ at_root (text "messages") messages
    ∷ at_root (text "identity") identity
    ∷ below_chain [] ticker
    ∷ below_chain (literal (text "hubs") ∷ []) hubs
    ∷ below_chain (literal (text "explorer") ∷ []) explorer
    ∷ below_chain (literal (text "explorer") ∷ literal (text "blocks") ∷ []) blocks
    ∷ below_chain
        (literal (text "explorer") ∷ literal (text "block") ∷ parameter (text "block") ∷ []) block
    ∷ below_chain
        (literal (text "explorer")
          ∷ literal (text "transaction")
          ∷ parameter (text "transaction")
          ∷ [])
        transaction
    ∷ below_chain
        (literal (text "explorer") ∷ literal (text "address") ∷ parameter (text "address") ∷ [])
        address
    ∷ below_chain (literal (text "network") ∷ []) network
    ∷ below_chain (literal (text "api") ∷ []) api
    ∷ below_chain (literal (text "about") ∷ []) about
    ∷ []

-- What the router finds: a component, and its parameters by their names.
pub record Found : Type 0 where
  pub page : Page
  pub parameters : List (Text × Text)

abbrev pub Url : Type 0
Url = List Text

-- `router.navigateByUrl('/setup')` in the constructor of the home page.
unfoldable pub home_url : Url
home_url = text "setup" ∷ []

-- `navigateToBlock(index)` on the page of a block.
unfoldable pub block_url : Text → Text → Url
block_url chain index = chain ∷ text "explorer" ∷ text "block" ∷ index ∷ []

-- The commands of `router.navigate` in `search`.
unfoldable pub target_url : Text → Target → Url
target_url chain (block_number n) = chain ∷ text "explorer" ∷ text "block" ∷ decimal n ∷ []
target_url chain (block_hash h) = chain ∷ text "explorer" ∷ text "block" ∷ h ∷ []
target_url chain (address_page a) = chain ∷ text "explorer" ∷ text "address" ∷ a ∷ []
target_url chain (transaction_page t) = chain ∷ text "explorer" ∷ text "transaction" ∷ t ∷ []
