-- ===== src/Setup.antt =====
-- The choice of a chain: `SetupService` of src/Blockcore.Hub/ClientApp/src/app/services/setup.service.ts
-- and `ApiService.loadSetup` of services/api.service.ts, with the calls of `setChain` that overlap.
pub mod Consistency
mod Tests
use blockcore_gateway.Common.{
  ℕ, zero, suc, ◌-◌, ◌≡◌, ◌≢◌, Bool, true, false, not, Option, none, some, List, [], ◌∷◌, ◌++◌,
  ◌&&◌, if◌then◌else◌, length, take,
}
use blockcore_gateway.Js.Text.{Text, text, equal, ends_with, to_upper_case}
use blockcore_gateway.Js.Value.{Value}

-- `Explorer.Indexer.ApiUrl` of a setup: the setup may lack the objects on the way to it, or have them without a url
-- (undefined or null).
pub data ApiUrl : Type 0 where
  no_indexer no_url : ApiUrl
  has_url : Text → ApiUrl

-- The setup of a chain. `accent` is `Chain.Color`. `other` stands for all else, which is only shown.
pub record Config : Type 0 where
  pub api_url : ApiUrl
  pub accent : Option Text
  pub other : Text

-- `downloads`: the chains whose setup has been asked for and is not there yet. `resumed`: the calls
-- of `setChain` that go on with their setup, first come first served. `loaded` stands for the five fields that are
-- set together, `data`, `Chain`, `Network`, `Indexer` and `Explorer`. `emitted`: what the subscribers
-- of the current chain were told, oldest first. `base_url` is a field of `ApiService`.
pub record Setup : Type 0 where
  pub current : Text
  pub emitted : List Text
  pub loaded : Option Config
  pub base_url : Option Text
  pub accent : Option Text
  pub downloads : List Text
  pub resumed : List (Text × Config)

abbrev pub blockcore : Text
blockcore = text "BLOCKCORE"

unfoldable pub new : Setup
new = record {
  current = blockcore;
  emitted = blockcore ∷ [];
  loaded = none;
  base_url = none;
  accent = none;
  downloads = [];
  resumed = [];
}

-- `this.current = val`
emit : Text → Setup → Setup
emit chain s = record s { current = chain; emitted = s.emitted ++ chain ∷ [] }

-- `setChain`, up to its `await`.
pub set_chain : Text → Setup → Setup
unfolding emit
set_chain chain s =
    if not (equal chain blockcore) && equal s.current chain
    then emit chain s
    else record s { downloads = s.downloads ++ chain ∷ [] }

-- Where the setup of a chain is downloaded from.
unfoldable pub setup_url : Text → Text
setup_url chain =
    text "https://chains.blockcore.net/chains/" ++ (to_upper_case chain ++ text ".json")

-- The base url that `loadSetup` takes from a setup; `use_local_indexer` is of the environment.
unfoldable pub base_of : Bool → Text → Text
base_of use_local_indexer url =
    if use_local_indexer
    then text "http://localhost:9910/api"
    else if ends_with (text "/") url
    then take (length url - 1) url
    else url

module _ (use_local_indexer : Bool) where
  -- `loadSetup` behind its download. It throws where the setup has no url: before the base url is set, or when that is
  -- already undefined, which `none` stands for.
  pub on_setup : Text → Config → Setup → Setup
  on_setup chain c s = elim c.api_url [
    | no_indexer ↦ s
    | no_url ↦ record s { base_url = none }
    | has_url u ↦ record s {
      base_url = some (base_of use_local_indexer u);
      resumed = s.resumed ++ (chain, c) ∷ [];
    }
  ]

abbrev or_keep : Option Text → Option Text → Option Text
or_keep none old = old
or_keep (some []) old = old
or_keep (some (c ∷ cs)) old = some (c ∷ cs)

-- `setChain` behind its `await`.
pub on_resumed : Text → Config → Setup → Setup
unfolding emit
on_resumed chain c s = emit chain (record s { loaded = some c; accent = or_keep c.accent s.accent })

-- The server's answers, by the url; `none` is a download that fails.
module _ (use_local_indexer : Bool) (server : Text → Option Config) where
  pub data Step : Setup → Setup → Type 0 where
    select : (chain : Text) (s : Setup) → Step s (set_chain chain s)
    arrive :
        (chain : Text) (c : Config) (before behind : List Text) (s : Setup)
        → s.downloads ≡ before ++ chain ∷ behind
        → server (setup_url chain) ≡ some c
        → Step s (on_setup use_local_indexer chain c (record s { downloads = before ++ behind }))
    fail :
        (chain : Text) (before behind : List Text) (s : Setup)
        → s.downloads ≡ before ++ chain ∷ behind
        → server (setup_url chain) ≡ none
        → Step s (record s { downloads = before ++ behind })
    resume :
        (chain : Text) (c : Config) (rest : List (Text × Config)) (s : Setup)
        → s.resumed ≡ (chain, c) ∷ rest
        → Step s (on_resumed chain c (record s { resumed = rest }))

  pub data Reach (s : Setup) : Setup → Type 0 where
    here : Reach s s
    next : {t u : Setup} → Reach s t → Step t u → Reach s u

-- Only an explicit `false` hides a feature.
unfoldable pub feature_enabled : Value → Bool
feature_enabled (Value.bool false) = false
feature_enabled v = true
