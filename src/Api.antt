-- ===== src/Api.antt =====
-- `ApiService.download` of src/Blockcore.Hub/ClientApp/src/app/services/api.service.ts, and the
-- errors that it throws.
pub mod Download
pub mod Requests
mod Tests
use blockcore_gateway.Common.{
  ℕ, String, Bool, true, false, Option, none, some, ◌&&◌, not, ◌==◌, if◌then◌else◌, ◌≡◌,
}
use blockcore_gateway.Js.Text.{Text}
use blockcore_gateway.Js.Value.{Value, truthy, get}

-- `code` and `message` are what the server sent for them.
pub record HttpError : Type 0 where
  pub code : Value
  pub url : Text
  pub message : Value

-- What an `await` can throw: the two errors of the browser (no response; a body that is no JSON),
-- a property of `undefined` or `null`, and the service's own error.
pub data Error : Type 0 where
  network_error syntax_error type_error : Error
  http_error : HttpError → Error

pub data Result {ℓ} (A : Type ℓ) : Type ℓ where
  ok : A → Result A
  err : Error → Result A

infixl 5 ◌>>=◌
abbrev pub ◌>>=◌ {ℓ κ} : {A : Type ℓ} {B : Type κ} → Result A → (A → Result B) → Result B
ok a >>= f = f a
err e >>= f = err e

-- What `fetch` gives: `json` is `none` where the body is no JSON.
pub record Response : Type 0 where
  pub status : ℕ
  pub status_text : String
  pub json : Option Value

-- `none`: `fetch` itself was rejected.
abbrev pub Fetched : Type 0
Fetched = Option Response

abbrev pub or_throw {ℓ} : {A : Type ℓ} → Option A → Error → Result A
or_throw none e = err e
or_throw (some a) e = ok a

-- `v[k]`, which throws on `undefined` and `null`.
unfoldable pub read : String → Value → Result Value
read k Value.undefined = err type_error
read k Value.null = err type_error
read k v = ok (get k v)

-- `v?.[k]`
abbrev pub optional_get : String → Value → Value
optional_get key Value.undefined = Value.undefined
optional_get key Value.null = Value.undefined
optional_get key v = get key v
