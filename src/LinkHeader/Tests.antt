-- ===== src/LinkHeader/Tests.antt =====
-- A header of the indexer.
use blockcore_gateway.Common.{some, [], ◌∷◌, ◌≡◌, refl, arith, All}
use blockcore_gateway.Js.Text.{text, index_of, replace, split, split_from}
use blockcore_gateway.LinkHeader.{link, key_of, value_of, assign_sections, parse_link_header}
use blockcore_gateway.LinkHeader.RoundTrip.{
  Link, IsPlain, print_links, parse_link_header-print_links,
}

abbrev first : Link
first = (text "first", text "/q?o=0")

abbrev next : Link
next = (text "next", text "/q?o=20")

abbrev plain : All IsPlain (first ∷ next ∷ [])
plain = omega arith

parsed :
    link (text "next") (parse_link_header (text "</q?o=0>; rel=\"first\", </q?o=20>; rel=\"next\""))
    ≡ some (text "/q?o=20")
unfolding link parse_link_header assign_sections key_of value_of index_of replace split split_from
parsed = refl

parse_link_header-print_links_example :
    parse_link_header (print_links first (next ∷ [])) ≡ next ∷ first ∷ []
parse_link_header-print_links_example = parse_link_header-print_links first (next ∷ []) plain
