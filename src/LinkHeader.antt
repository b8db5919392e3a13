-- ===== src/LinkHeader.antt =====
-- `ApiService.parseLinkHeader` of src/Blockcore.Hub/ClientApp/src/app/services/api.service.ts.
pub mod RoundTrip
mod Tests
use blockcore_gateway.Common.{ℕ, Option, none, some, List, [], ◌∷◌, ◌++◌, if◌then◌else◌}
use blockcore_gateway.Js.Text.{
  Text, text, equal, index_of, plus, substring_from, substring, replace, split,
}

-- The properties that have been assigned to `links`, the latest first. The four that it starts
-- with are `null`, which the client does not tell from a missing one.
abbrev pub Links : Type 0
Links = List (Text × Text)

-- `links[k]`; `none` is `null` or `undefined`.
unfoldable pub link : Text → Links → Option Text
link k [] = none
link k ((j, v) ∷ ls) = if equal j k then some v else link k ls

unfoldable pub key_of : Text → Text
key_of section =
    replace (text "\"") [] (substring_from (plus (index_of (text "rel=\"") section) 5) section)

unfoldable pub value_of : Text → Text
value_of section =
    substring (plus (index_of (text "<") section) 1) (plus (index_of (text ">") section) 0) section

-- The callback of `sections.forEach`, over the sections.
unfoldable pub assign_sections : Links → List Text → Links
assign_sections links [] = links
assign_sections links (s ∷ ss) = assign_sections ((key_of s, value_of s) ∷ links) ss

unfoldable pub parse_link_header : Text → Links
parse_link_header header = assign_sections [] (split (text ", ") header)
