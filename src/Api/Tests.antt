-- ===== src/Api/Tests.antt =====
-- A server that answers with an error, in JSON and not in JSON.
use blockcore_gateway.Common.{◌≡◌, ◌≢◌, ◌↔◌, Bool, refl, none, some}
use blockcore_gateway.Js.Text.{text}
use blockcore_gateway.Js.Value.{obj, field, end, num, pos, str, bool, get, truthy, lookup}
use blockcore_gateway.Api.{HttpError, http_error, syntax_error, err, Response}
use blockcore_gateway.Api.Download.{download, status_error, download-http_error_iff}

abbrev found : Response
found = record { status = 200; status_text = "OK"; json = some (bool Bool.true) }

abbrev missing : Response
missing = record {
  status = 404;
  status_text = "Not Found";
  json = some (obj (field "status" (num (pos 404) 0) (field "title" (str "No block") end)));
}

abbrev proxy_error : Response
proxy_error = record { status = 502; status_text = "Bad Gateway"; json = none }

download-http_error_iff_example :
    ((h : HttpError) × (download (text "u") (some missing) ≡ err (http_error h))
      × (h.url ≡ text "u"))
    ↔ ((missing.status ≢ 200) × (missing.json ≢ none))
download-http_error_iff_example = download-http_error_iff (text "u") missing

title_of_server :
    download (text "u") (some missing)
    ≡ err (http_error (record { code = num (pos 404) 0; url = text "u"; message = str "No block" }))
unfolding download status_error truthy get lookup
title_of_server = refl

no_json : download (text "u") (some proxy_error) ≡ err syntax_error
unfolding download
no_json = refl
