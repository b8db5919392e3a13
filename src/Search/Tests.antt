-- ===== src/Search/Tests.antt =====
-- Searches against an indexer that knows one block and one transaction.
use blockcore_gateway.Common.{◌≡◌, refl, some, if◌then◌else◌}
use blockcore_gateway.Js.Text.{Text, text, equal}
use blockcore_gateway.Js.Value.{pos}
use blockcore_gateway.Js.Number.{parse_int, decimal, digits_from, digit}
use blockcore_gateway.Api.{ok, err, network_error}
use blockcore_gateway.Search.{Indexer}
use blockcore_gateway.Search.Results.{}

abbrev block_id : Text
block_id = text "00000000000000000000aa"

abbrev server : Indexer
server = record {
  block_by_hash = λ t. if equal t block_id then ok (some t) else err network_error;
  transaction = λ t. ok (some t);
  round = λ n. n;
}

hexadecimal : parse_int (text " 0x1Fz") ≡ some (pos 31)
unfolding parse_int digits_from digit
hexadecimal = refl

decimal_1024 : decimal 1024 ≡ text "1024"
unfolding decimal
decimal_1024 = refl
