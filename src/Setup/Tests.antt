-- ===== src/Setup/Tests.antt =====
-- Two chains, chosen one after the other.
use blockcore_gateway.Common.{false, Option, none, some, [], ◌≡◌, ◌⊎◌, refl, if◌then◌else◌}
use blockcore_gateway.Js.Text.{Text, text, equal}
use blockcore_gateway.Setup.{
  has_url, Config, Setup, new, set_chain, setup_url, select, Reach, here, next, on_resumed,
}
use blockcore_gateway.Setup.Consistency.{
  IsShown, base_for, Undefined, Reach-consistent, Reach-trans, Reach-after_load, after_load,
}

abbrev btc : Config
btc = record { api_url = has_url (text "https://btc/"); accent = some (text "orange"); other = [] }

abbrev city : Config
city = record { api_url = has_url (text "https://city"); accent = none; other = [] }

abbrev server : Text → Option Config
server url =
    if equal url (text "https://chains.blockcore.net/chains/BTC.json") then some btc else some city

btc_url : setup_url (text "btc") ≡ text "https://chains.blockcore.net/chains/BTC.json"
unfolding setup_url
btc_url = refl

abbrev chosen : Setup
chosen = set_chain (text "btc") new

abbrev shown : Setup
shown = after_load false server (text "btc") btc (text "https://btc/") [] chosen

shown-Reach : Reach false server new shown
unfolding set_chain new setup_url
shown-Reach = Reach-trans false server (next here (select (text "btc") new)) (
    Reach-after_load false server (text "btc") btc (text "https://btc/") [] [] chosen refl refl refl
      refl)

Reach-consistent_example :
    IsShown false server shown
    × ((shown.base_url ≡ base_for false server shown.loaded)
        ⊎ ((shown.base_url ≡ none) × Undefined false server))
unfolding after_load on_resumed set_chain new
Reach-consistent_example = Reach-consistent false server shown-Reach refl
