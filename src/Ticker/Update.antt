-- ===== src/Ticker/Update.antt =====
-- What an update of the ticker shows.
use blockcore_gateway.Common.{
  ◌≡◌, ◌⊎◌, inl, inr, refl, sym, ap, ◌∙◌, Option-cases, Option, none, some, [], ◌∷◌, arith,
}
use blockcore_gateway.Js.Text.{Text}
use blockcore_gateway.Js.Value.{Value}
use blockcore_gateway.Api.{Error, Result, ok, err, ◌>>=◌}
use blockcore_gateway.Ticker.{
  Config, Prices, prices, Sign, read_prices, show, ask, navigate, navigator, change_type,
  update_ticker,
}

-- These prices are what an answer has under the three paths of a setup.
pub record PricesOf (sign_of : Value → Sign) (later : Option Config) (answer : Value) (p : Prices)
    : Type 0 where
  pub setup : Config
  pub percentage : Text
  pub btc : Text
  pub usd : Text
  pub later_is : later ≡ some setup
  pub percentage_is : setup.percentage_path ≡ some percentage
  pub btc_is : setup.price_path_btc ≡ some btc
  pub usd_is : setup.price_path_usd ≡ some usd
  pub shown : p ≡ record {
    btc = navigator answer btc;
    usd = navigator answer usd;
    change_percentage = navigator answer percentage;
    change_type = change_type (sign_of (navigator answer percentage));
  }

Result-cases : {A : Type 0} (r : Result A) → ((a : A) × (r ≡ ok a)) ⊎ ((x : Error) × (r ≡ err x))
Result-cases (ok a) = inl (a, refl)
Result-cases (err x) = inr (x, refl)

module _ (sign_of : Value → Sign) where
  read_prices-PricesOf :
      (later : Option Config) (answer : Value) (p : Prices)
      → read_prices sign_of later answer ≡ ok p
      → PricesOf sign_of later answer p
  unfolding read_prices navigate
  read_prices-PricesOf none answer p h = absurd (ground arith)
  read_prices-PricesOf (some c) answer p h = elim (Option-cases c.percentage_path) [
    | inl e ↦ absurd (ground arith)
    | inr (percentage, e) ↦ elim (Option-cases c.price_path_btc) [
      | inl f ↦ absurd (ground arith)
      | inr (btc, f) ↦ elim (Option-cases c.price_path_usd) [
        | inl g ↦ absurd (ground arith)
        | inr (usd, g) ↦ record {
          setup = c;
          percentage = percentage;
          btc = btc;
          usd = usd;
          later_is = refl;
          percentage_is = e;
          btc_is = f;
          usd_is = g;
          shown = ground arith;
        }
      ]
    ]
  ]

  show-prices : (r : Result Prices) (p : Prices) → (show sign_of r).ticker ≡ prices p → r ≡ ok p
  unfolding show
  show-prices (ok q) p h = ground arith
  show-prices (err x) p h = absurd (ground arith)

  module _ (download : Text → Result Value) where
    ask-prices :
        (o : Option Text) (later : Option Config) (p : Prices)
        → (ask sign_of o later download).ticker ≡ prices p
        → (url : Text) × (answer : Value) × (o ≡ some url)
          × (download url ≡ ok answer)
          × PricesOf sign_of later answer p
    unfolding ask
    ask-prices none later p h = absurd (ground arith)
    ask-prices (some []) later p h = absurd (ground arith)
    ask-prices (some (u ∷ us)) later p h = elim (Result-cases (download (u ∷ us))) [
      | inr (x, e) ↦ absurd (ground (arith, show-prices _ p h))
      | inl (answer, e) ↦ (
        u ∷ us,
        answer,
        refl,
        e,
        read_prices-PricesOf later answer p
            (sym (ap (λ r. r >>= read_prices sign_of later) e) ∙ show-prices _ p h),
      )
    ]

    -- The prices that an update shows all come from one answer, which was downloaded from the url of the setup,
    -- and they stand there under the paths of the setup at the time of the answer.
    pub update_ticker-prices :
        (c later : Option Config) (p : Prices)
        → (update_ticker sign_of c later download).ticker ≡ prices p
        → (d : Config) × (url : Text) × (answer : Value) × (c ≡ some d)
          × (d.api_url ≡ some url)
          × (download url ≡ ok answer)
          × PricesOf sign_of later answer p
    unfolding update_ticker
    update_ticker-prices none later p h = absurd (ground arith)
    update_ticker-prices (some d) later p h =
        let (url, answer, o, e, q) = ask-prices d.api_url later p h in
        (d, url, answer, refl, o, e, q)
