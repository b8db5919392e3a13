-- ===== src/Routes/Navigation.antt =====
-- Where the navigations of the client lead.
use blockcore_gateway.Common.{
  String, sym, ap, Bool-cases, inl, inr, ◌≡◌, ◌≢◌, ◌↔◌, refl, false, Option, some, List, [], ◌∷◌,
  ◌∙◌, All,
}
use blockcore_gateway.Js.Text.{Text, text, equal}
use blockcore_gateway.Js.Text.Search.{equal_iff}
use blockcore_gateway.Js.Number.{decimal}
use blockcore_gateway.Search.{Target, block_number, block_hash, address_page, transaction_page}
use blockcore_gateway.Routes.{
  Page, setup, dashboard, apps, gateway, hubs, requests, messages, identity, ticker, block,
  transaction, address, Route, routes, Found, Url, target_url,
}
use blockcore_gateway.Routes.Recognition.{first_fit, TakesFirstFit}

-- The page that a target of a search is meant for, and the parameter that it reads.
abbrev pub page_of : Target → Page
page_of (block_number n) = block
page_of (block_hash h) = block
page_of (address_page a) = address
page_of (transaction_page t) = transaction

abbrev pub parameter_of : Target → Text × Text
parameter_of (block_number n) = (text "block", decimal n)
parameter_of (block_hash h) = (text "block", h)
parameter_of (address_page a) = (text "address", a)
parameter_of (transaction_page t) = (text "transaction", t)

-- The pages at the root.
abbrev pub root_names : List String
root_names =
    "setup" ∷ "dashboard" ∷ "apps" ∷ "gateway" ∷ "hubs" ∷ "requests" ∷ "messages" ∷ "identity" ∷ []

some_page : {f g : Found} → some f ≡ some g → f.page ≡ g.page
some_page e = cc

-- Of two pages that are found for equal urls there is only one.
clash :
    (chain : Text) (name : String) (page : Page) {f : Found}
    → first_fit routes (chain ∷ []) ≡ some f
    → first_fit routes (text name ∷ []) ≡ some (record { page = page; parameters = [] })
    → page ≢ f.page
    → text name ≢ chain
clash chain name page e r n same =
    n (some_page (sym r ∙ ap (λ c. first_fit routes (c ∷ [])) same ∙ e))

roots_differ :
    (chain : Text) {ps : List (Text × Text)}
    → first_fit routes (chain ∷ []) ≡ some (record { page = ticker; parameters = ps })
    → All (λ name. text name ≢ chain) root_names
unfolding routes
roots_differ chain e = (
  clash chain "setup" setup e refl (λ q. cc),
  (
    clash chain "dashboard" dashboard e refl (λ q. cc),
    (
      clash chain "apps" apps e refl (λ q. cc),
      (
        clash chain "gateway" gateway e refl (λ q. cc),
        (
          clash chain "hubs" hubs e refl (λ q. cc),
          (
            clash chain "requests" requests e refl (λ q. cc),
            (
              clash chain "messages" messages e refl (λ q. cc),
              (clash chain "identity" identity e refl (λ q. cc), tt),
            ),
          ),
        ),
      ),
    ),
  ),
)

equal-false : (s t : Text) → s ≢ t → equal s t ≡ false
equal-false s t n = elim (Bool-cases (equal s t)) [
  | inl e ↦ absurd (n ((equal_iff s t).0 e))
  | inr e ↦ e
]

first_fit-chain :
    (chain : Text)
    → All (λ name. text name ≢ chain) root_names
    → first_fit routes (chain ∷ [])
      ≡ some (record { page = ticker; parameters = (text "chain", chain) ∷ [] })
unfolding routes
first_fit-chain chain (a, (b, (c, (d, (e, (f, (g, (h, u)))))))) =
    rw
      (
        equal-false _ chain a,
        equal-false _ chain b,
        equal-false _ chain c,
        equal-false _ chain d,
        equal-false _ chain e,
        equal-false _ chain f,
        equal-false _ chain g,
        equal-false _ chain h,
      )
      refl

module _ (recognize : List Route → Url → Option Found) (router : TakesFirstFit recognize) where
  -- Whatever the chain is called, the url of each kind of search result is routed to the page of that kind, with
  -- the chain and the result as its parameters.
  pub recognize-target_url :
      (chain : Text) (t : Target)
      → recognize routes (target_url chain t)
        ≡ some
            (record { page = page_of t; parameters = (text "chain", chain) ∷ parameter_of t ∷ [] })
  unfolding routes target_url
  recognize-target_url chain (block_number n) = router _ _ ∙ refl
  recognize-target_url chain (block_hash h) = router _ _ ∙ refl
  recognize-target_url chain (address_page a) = router _ _ ∙ refl
  recognize-target_url chain (transaction_page t) = router _ _ ∙ refl

  -- A chain's own page is reached by its url exactly when the chain is not called like one of the pages at the
  -- root: those come first.
  pub recognize-chain :
      (chain : Text)
      → (recognize routes (chain ∷ [])
          ≡ some (record { page = ticker; parameters = (text "chain", chain) ∷ [] }))
        ↔ All (λ name. text name ≢ chain) root_names
  unfolding routes
  recognize-chain chain =
      (λ e. roots_differ chain (sym (router _ _) ∙ e), λ h. router _ _ ∙ first_fit-chain chain h)
