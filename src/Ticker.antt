-- ===== src/Ticker.antt =====
-- The ticker of a chain's price: src/Blockcore.Hub/ClientApp/src/app/ticker/ticker.component.ts.
pub mod Paths
pub mod Update
mod Tests
use blockcore_gateway.Common.{
  ℕ, ◌≡◌, Bool, true, false, Option, none, some, List, [], ◌∷◌, if◌then◌else◌,
}
use blockcore_gateway.Js.Text.{Text, text, equal, split}
use blockcore_gateway.Js.Value.{ℤ, pos, negsuc, Value, Fields, end, field, truthy}
use blockcore_gateway.Api.{Error, type_error, Result, ok, err, ◌>>=◌}

-- `a[b]` where `a` is truthy, for a key that is a text.
unfoldable pub lookup_text : Text → Fields → Value → Value
lookup_text k end found = found
lookup_text k (field j v fs) found = lookup_text k fs (if equal (text j) k then v else found)

unfoldable pub property : Text → Value → Value
property k (Value.obj fs) = lookup_text k fs Value.undefined
property k _ = Value.undefined

-- `reduce((a, b) => a && a[b], obj)`
unfoldable pub reduce : Value → List Text → Value
reduce a [] = a
reduce a (b ∷ bs) = reduce (if truthy a then property b a else a) bs

unfoldable pub navigator : Value → Text → Value
navigator root path = reduce root (split (text ".") path)

pub data ChangeType : Type 0 where
  neutral negative positive : ChangeType

-- `Explorer.Ticker` of a setup; a path is `none` where the setup has none.
pub record Config : Type 0 where
  pub api_url : Option Text
  pub percentage_path : Option Text
  pub price_path_btc : Option Text
  pub price_path_usd : Option Text

-- `btc` and the others are `none` where they are `null`.
pub record Prices : Type 0 where
  pub btc : Value
  pub usd : Value
  pub change_percentage : Value
  pub change_type : ChangeType

pub data Ticker : Type 0 where
  empty nulls : Ticker
  prices : Prices → Ticker

pub record TickerComponent : Type 0 where
  pub ticker : Ticker
  pub error : Option Error

-- `path.split` of a missing path throws.
navigate : Value → Option Text → Result Value
navigate root none = err type_error
navigate root (some path) = ok (navigator root path)

pub data Sign : Type 0 where
  below zero above nan : Sign

-- The two comparisons with 0, the later one last.
unfoldable pub change_type : Sign → ChangeType
change_type below = negative
change_type above = positive
change_type zero = neutral
change_type nan = neutral

-- The sign of the number that the language makes of a value before it compares it is a parameter.
module _ (sign_of : Value → Sign) where
  -- Behind the download: `this.setup.Explorer.Ticker`, where `none` is a setup without one.
  pub read_prices : Option Config → Value → Result Prices
  unfolding navigate
  read_prices none request = err type_error
  read_prices (some c) request = do
    percentage ← navigate request c.percentage_path
    btc ← navigate request c.price_path_btc
    usd ← navigate request c.price_path_usd
    ok (record {
      btc = btc;
      usd = usd;
      change_percentage = percentage;
      change_type = change_type (sign_of percentage);
    })

  -- The assignment to `ticker`, or the `catch`.
  show : Result Prices → TickerComponent
  show (ok p) = record { ticker = prices p; error = none }
  show (err x) = record { ticker = nulls; error = some x }

  -- From the test of the url on.
  ask : Option Text → Option Config → (Text → Result Value) → TickerComponent
  unfolding read_prices show
  ask none later download = record { ticker = empty; error = none }
  ask (some []) later download = record { ticker = empty; error = none }
  ask (some (u ∷ us)) later download = show (download (u ∷ us) >>= read_prices later)

  -- `updateTicker`: `c` is the ticker of the setup, if it has one, and `later` the one that it has when the
  -- download is there. Nothing of the component's earlier state is left.
  pub update_ticker : Option Config → Option Config → (Text → Result Value) → TickerComponent
  unfolding ask
  update_ticker none later download = record { ticker = empty; error = none }
  update_ticker (some c) later download = ask c.api_url later download
