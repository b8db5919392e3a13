-- ===== src/Client.antt =====
-- The shell of the client, src/Blockcore.Hub/ClientApp/src/app/: app.component.ts, shared/loading.resolver.ts,
-- services/applicationstate.service.ts, nav-menu/nav-menu.component.ts, the redirection of home/home.component.ts,
-- SetupService.getChains of services/setup.service.ts, and the titles that the constructors of the pages set.
-- A visit of the client is a sequence of urls that are opened.
pub mod Browsing
pub mod Welcome
mod Tests
use blockcore_gateway.Common.{ℕ, Bool, true, false, Option, none, some, List, [], ◌∷◌}
use blockcore_gateway.Js.Text.{Text, text}
use blockcore_gateway.Js.Value.{Value}
use blockcore_gateway.Api.{Error, Result, ok, err}
use blockcore_gateway.Setup.{Setup, new as new_setup}
use blockcore_gateway.Routes.{
  Page, home, setup, dashboard, apps, gateway, hubs, requests, messages, identity, ticker, explorer,
  blocks, block, transaction, address, network, api, about, Route, routes, Found, Url, home_url,
}

-- `title` is of ApplicationState, `multi_chain` and `chains` are fields of SetupService, `setup` is the rest of
-- that service with the base url of ApiService; `page` is the page that the outlet shows. What was never set is
-- none.
pub record Client : Type 0 where
  pub title : Option Text
  pub multi_chain : Option Bool
  pub chains : Option Value
  pub setup : Setup
  pub page : Option Page

unfoldable pub new : Client
new = record { title = none; multi_chain = none; chains = none; setup = new_setup; page = none }

-- `getChains`, given what its download gives; the caller does not wait for it, so nothing handles its exception.
unfoldable pub get_chains : Result Value → Client → Client × Option Error
get_chains (ok chains) c = (record c { chains = some chains }, none)
get_chains (err e) c = (c, some e)

-- `LoadingResolverService.resolve`, which resolves every `chain` to null.
unfoldable pub resolve_chain : Client → Client
resolve_chain c = record c { multi_chain = some true }

-- The titles that the constructors set.
unfoldable pub title_of : Page → Option Text
title_of setup = some (text "Setup")
title_of dashboard = some (text "Dashboard")
title_of apps = some (text "Apps")
title_of gateway = some (text "Data")
title_of hubs = some (text "Hubs")
title_of requests = some (text "Requests")
title_of messages = some (text "Messages")
title_of identity = some (text "Identity")
title_of _ = none

abbrev titled : Option Text → Option Text → Option Text
titled none old = old
titled (some t) old = some t

unfoldable pub construct : Page → Client → Client
construct page c = record c { page = some page; title = titled (title_of page) c.title }

-- The route is resolved before its page is made.
unfoldable pub enter : Page → Client → Client
enter page c = construct page (resolve_chain c)

-- A url without a route is refused by the router.
unfoldable pub settle : Option Found → Client → Client
settle none c = c
settle (some f) c = enter f.page c

module _ (recognize : List Route → Url → Option Found) where
  -- The home page navigates to the page of the setup from its constructor.
  unfoldable pub arrive : Page → Client → Client
  arrive home c = settle (recognize routes home_url) (enter home c)
  arrive page c = enter page c

  unfoldable pub open_url : Url → Client → Client
  open_url url c = elim (recognize routes url) [ none ↦ c | some f ↦ arrive f.page c ]

  unfoldable pub browse : List Url → Client → Client
  browse [] c = c
  browse (url ∷ urls) c = browse urls (open_url url c)

-- The menu of the chains; the handlers return false.
pub record NavMenu : Type 0 where
  pub show_list : Option Bool

unfoldable pub on_mouse_over : NavMenu → NavMenu × Bool
on_mouse_over m = (record m { show_list = some true }, false)

unfoldable pub on_mouse_out : NavMenu → NavMenu × Bool
on_mouse_out m = (record m { show_list = some false }, false)
