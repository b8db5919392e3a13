-- ===== src/Api/Download.antt =====
-- `ApiService.download`, with `baseUrl` and the requests that go through it.
use blockcore_gateway.Common.{
  Option, none, some, ◌&&◌, ◌==◌, if◌then◌else◌, ◌≡◌, ◌++◌, ◌≢◌, ◌↔◌, refl, arith, Option-cases,
  inl, inr,
}
use blockcore_gateway.Js.Value.{Value, num, str, pos, truthy, get}
use blockcore_gateway.Js.Text.{Text, text}
use blockcore_gateway.Api.{
  HttpError, network_error, syntax_error, http_error, Result, ok, err, ◌>>=◌, Response, Fetched,
  or_throw,
}

-- The error for a response with a status other than 200 and the body `json`.
unfoldable pub status_error : Text → Response → Value → HttpError
status_error url response json =
    if truthy json && truthy (get "status" json)
    then record { code = get "status" json; url = url; message = get "title" json }
    else record {
      code = num (pos response.status) 0;
      url = url;
      message = str response.status_text;
    }

-- `download(url)`, given what the `fetch` of the url gives.
unfoldable pub download : Text → Fetched → Result Value
unfolding status_error
download url fetched = do
  response ← or_throw fetched network_error
  json ← or_throw response.json syntax_error
  if response.status == 200 then ok json else err (http_error (status_error url response json))

-- `this.baseUrl + path`; a base that was never set is written out.
unfoldable pub resolve : Option Text → Text → Text
resolve none path = text "undefined" ++ path
resolve (some base) path = base ++ path

-- A download gives the body exactly when the response has the status 200 and a body of JSON.
pub download-ok_iff :
    (url : Text) (fetched : Fetched) (v : Value)
    → (download url fetched ≡ ok v)
      ↔ ((r : Response) × (fetched ≡ some r) × (r.status ≡ 200) × (r.json ≡ some v))
unfolding download
download-ok_iff url none v = (λ e. absurd (ground arith), λ (r, e, s, j). absurd (ground arith))
download-ok_iff url (some r) v =
    (λ e. (r, refl, ground arith, ground arith), λ (q, e, s, j). ground arith)

-- It throws the service's own error, which carries the url, exactly when the response has another status and
-- a body of JSON: an error page that is no JSON is reported as a syntax error.
pub download-http_error_iff :
    (url : Text) (r : Response)
    → ((h : HttpError) × (download url (some r) ≡ err (http_error h)) × (h.url ≡ url))
      ↔ ((r.status ≢ 200) × (r.json ≢ none))
unfolding download status_error
download-http_error_iff url r = elim (Option-cases r.json) [
  | inl e ↦ (λ (h, thrown, u). absurd (ground arith), λ (s, j). absurd (j e))
  | inr (v, e) ↦ (
    λ (h, thrown, u). (ground arith, ground arith),
    λ (s, j). (status_error url r v, ground arith, ground arith),
  )
]
