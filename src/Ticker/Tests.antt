-- ===== src/Ticker/Tests.antt =====
-- A ticker whose percentage stands two keys deep.
use blockcore_gateway.Common.{◌≡◌, refl, some, [], ◌∷◌}
use blockcore_gateway.Js.Text.{Text, text, split, split_from}
use blockcore_gateway.Js.Value.{Value, num, pos, truthy}
use blockcore_gateway.Api.{Result, ok}
use blockcore_gateway.Ticker.{
  Config, Prices, prices, Sign, above, positive, navigator, reduce, property, lookup_text,
  change_type, update_ticker,
}
use blockcore_gateway.Ticker.Paths.{nest}

abbrev one : Value
one = num (pos 1) 0

abbrev answer : Value
answer = nest ("data" ∷ "change" ∷ []) one

abbrev config : Config
config = record {
  api_url = some (text "https://t");
  percentage_path = some (text "data.change");
  price_path_btc = some (text "data.btc");
  price_path_usd = some (text "data.usd");
}

abbrev shown : Prices
shown = record {
  btc = Value.undefined;
  usd = Value.undefined;
  change_percentage = one;
  change_type = positive;
}

abbrev rising : Value → Sign
rising v = above

abbrev answers : Text → Result Value
answers url = ok answer

shows : (update_ticker rising (some config) (some config) answers).ticker ≡ prices shown
unfolding update_ticker navigator reduce property lookup_text split split_from truthy change_type
shows = refl
