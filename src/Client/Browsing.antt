-- ===== src/Client/Browsing.antt =====
-- What a visit of the client does to its services and to its title.
use blockcore_gateway.Common.{
  ◌≡◌, true, refl, ◌∙◌, Option, none, some, List, [], ◌∷◌, ◌++◌, Option-cases, inl, inr,
}
use blockcore_gateway.Js.Text.{Text, text}
use blockcore_gateway.Api.{Fetched}
use blockcore_gateway.Api.Requests.{request_relative}
use blockcore_gateway.Api.Download.{resolve}
use blockcore_gateway.Search.{Target, block_number, block_hash, address_page, transaction_page}
use blockcore_gateway.Setup.{blockcore, new as new_setup}
use blockcore_gateway.Routes.{Page, home, Route, routes, Found, Url, home_url, target_url}
use blockcore_gateway.Routes.Recognition.{TakesFirstFit}
use blockcore_gateway.Routes.Navigation.{page_of, recognize-target_url}
use blockcore_gateway.Client.{
  Client, new, title_of, construct, resolve_chain, enter, arrive, open_url, browse, settle,
}

enter-setup : (page : Page) (c : Client) → (enter page c).setup ≡ c.setup
unfolding enter construct resolve_chain
enter-setup page c = refl

settle-setup : (f : Option Found) (c : Client) → (settle f c).setup ≡ c.setup
unfolding settle
settle-setup none c = refl
settle-setup (some f) c = enter-setup f.page c

module _ (recognize : List Route → Url → Option Found) where
  arrive-setup : (page : Page) (c : Client) → (arrive recognize page c).setup ≡ c.setup
  unfolding arrive
  arrive-setup home c = settle-setup (recognize routes home_url) (enter home c) ∙ enter-setup home c
  arrive-setup page c = enter-setup page c

  open_url-setup : (url : Url) (c : Client) → (open_url recognize url c).setup ≡ c.setup
  unfolding open_url
  open_url-setup url c = elim (Option-cases (recognize routes url)) [
    | inl e ↦ rw (e, open_url) refl
    | inr (f, e) ↦ rw (e, open_url) (arrive-setup f.page c)
  ]

  browse-setup : (urls : List Url) (c : Client) → (browse recognize urls c).setup ≡ c.setup
  unfolding browse
  browse-setup [] c = refl
  browse-setup (url ∷ urls) c = browse-setup urls (open_url recognize url c) ∙ open_url-setup url c

  -- What is modelled of a visit does nothing to the setup that the service begins with: a `requestRelative` after it
  -- would go to a url that begins with `undefined`.
  browse-request_relative :
      (fetch : Text → Fetched) (urls : List Url) (path : Text)
      → let s = (browse recognize urls new).setup in
        (s.current ≡ blockcore)
        × (s.base_url ≡ none)
        × (request_relative fetch s.base_url path ≡ fetch (text "undefined" ++ path))
  unfolding new new_setup request_relative resolve
  browse-request_relative fetch urls path = rw (browse-setup urls new) (refl, refl, refl)

  arrive-page_of :
      (t : Target) (c : Client)
      → let after = arrive recognize (page_of t) c in
        (after.page ≡ some (page_of t)) × (after.title ≡ c.title) × (after.multi_chain ≡ some true)
  unfolding arrive enter construct resolve_chain title_of
  arrive-page_of (block_number n) c = (refl, refl, refl)
  arrive-page_of (block_hash h) c = (refl, refl, refl)
  arrive-page_of (address_page a) c = (refl, refl, refl)
  arrive-page_of (transaction_page x) c = (refl, refl, refl)

  -- The url of a search result opens the page of its kind, and leaves the title of the page before it in place.
  pub open_url-target_url :
      (router : TakesFirstFit recognize) (chain : Text) (t : Target) (c : Client)
      → let after = open_url recognize (target_url chain t) c in
        (after.page ≡ some (page_of t)) × (after.title ≡ c.title) × (after.multi_chain ≡ some true)
  unfolding open_url
  open_url-target_url router chain t c =
      rw (recognize-target_url recognize router chain t, open_url) (arrive-page_of t c)
