-- ===== src/Client/Tests.antt =====
-- Visits of the client, with the router that takes the first fit.
use blockcore_gateway.Common.{◌≡◌, refl, false, none, some, List, [], ◌∷◌}
use blockcore_gateway.Js.Text.{Text, text}
use blockcore_gateway.Api.{Fetched}
use blockcore_gateway.Api.Requests.{}
use blockcore_gateway.Setup.{}
use blockcore_gateway.Routes.{setup, home_url, routes, Url}
use blockcore_gateway.Routes.Recognition.{first_fit}
use blockcore_gateway.Client.{
  new, browse, open_url, settle, arrive, enter, construct, resolve_chain, title_of, on_mouse_over,
  on_mouse_out,
}
use blockcore_gateway.Client.Browsing.{}

abbrev urls : List Url
urls = [] ∷ (text "hubs" ∷ []) ∷ (text "city" ∷ []) ∷ []

-- The home page has led to the setup, and the page of the chain keeps the title of the hubs.
titles : (browse first_fit urls new).title ≡ some (text "Hubs")
unfolding browse open_url settle arrive enter construct resolve_chain title_of routes home_url new
titles = refl

first_page : (open_url first_fit [] new).page ≡ some setup
unfolding open_url settle arrive enter construct resolve_chain title_of routes home_url
first_page = refl

-- A server that answers nothing.
abbrev silent : Text → Fetched
silent url = none

menu : (on_mouse_out (on_mouse_over (record { show_list = none })).0).0.show_list ≡ some false
unfolding on_mouse_out on_mouse_over
menu = refl
