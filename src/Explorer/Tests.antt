-- ===== src/Explorer/Tests.antt =====
-- A component that is destroyed after the chain was changed once.
use blockcore_gateway.Common.{◌+◌, ◌≤◌, ◌≡◌, refl, List, [], ◌∷◌, arith}
use blockcore_gateway.Js.Value.{obj, end, str, get}
use blockcore_gateway.Js.Text.{text}
use blockcore_gateway.Api.{network_error, ok, err, read}
use blockcore_gateway.Explorer.{
  Block, Explorer, new, on_chain, on_round_info, set_info, chain, round_info, destroy,
  ng_on_destroy, Reach, here, next,
}
use blockcore_gateway.Explorer.Loops.{info_loops, block_loops, Reach-loops}

abbrev two_chains : Explorer
two_chains = on_round_info (err network_error) (on_chain new)

gone-Reach : Reach new (ng_on_destroy two_chains)
unfolding new on_chain on_round_info set_info
gone-Reach =
    next
      (next (next here (chain new refl))
        (round_info (err network_error) (on_chain new) (omega arith)))
      (destroy two_chains refl)

Reach-loops_example :
    let gone = ng_on_destroy two_chains in
    ((info_loops gone ≤ info_loops new + 1) × (info_loops new + 1 ≤ info_loops gone + 1))
    × ((block_loops gone ≤ block_loops new + 1) × (block_loops new + 1 ≤ block_loops gone + 1))
    × (1 ≤ 1)
unfolding gone-Reach
Reach-loops_example = Reach-loops gone-Reach

abbrev answered : List Block
answered =
    record { block_index = 3; block_hash = text "c" }
    ∷ record { block_index = 5; block_hash = text "e" }
    ∷ []

-- An answer without a node: the exception leaves the chain that was shown before.
abbrev on_city : Explorer
on_city = record new { blockchain = str "City" }

no_node : (set_info (ok (obj end)) on_city).blockchain ≡ str "City"
unfolding set_info read get
no_node = refl
