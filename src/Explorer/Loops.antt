-- ===== src/Explorer/Loops.antt =====
-- How many polls are under way, and what is left of them when the component is destroyed.
use blockcore_gateway.Common.{
  Bool, if◌then◌else◌, ℕ, suc, ◌+◌, ◌≤◌, ◌<◌, ◌≡◌, Option, none, some, List, [], ◌∷◌, arith, length,
}
use blockcore_gateway.Js.Value.{Value}
use blockcore_gateway.Api.{Result}
use blockcore_gateway.Explorer.{
  Block, set_info, set_blocks, arm_info, arm_blocks, Explorer, on_chain, on_round_info, on_info,
  on_blocks, remove, on_info_timeout, on_blocks_timeout, ng_on_destroy, clear, Armed, head, tail,
  destroy, chain, round_info, info, blocks, info_timeout, blocks_timeout, Reach, here, next,
}

length-remove-le :
    (h : ℕ) (xs : List ℕ)
    → (length (remove h xs) ≤ length xs) × (length xs ≤ suc (length (remove h xs)))
unfolding remove
length-remove-le h [] = omega arith
length-remove-le h (x ∷ xs) = ground (arith, length-remove-le h xs)

length-remove : {h : ℕ} {xs : List ℕ} → Armed h xs → suc (length (remove h xs)) ≡ length xs
unfolding remove
length-remove {h} (head {x} {xs} e) = ground arith
length-remove {h} (tail {x} {xs} a) = ground (arith, length-remove a)

-- The polls of the node's state: a subscription that waits, a request, or a timeout that is to come.
abbrev pub info_loops : Explorer → ℕ
info_loops e = e.rounds + e.info_requests + length e.armed_info

-- The polls of the blocks. A subscription that waits will begin one.
abbrev pub block_loops : Explorer → ℕ
block_loops e = e.rounds + e.block_requests + length e.armed_blocks

-- How often the chain is chosen in a run.
abbrev pub chains : {e f : Explorer} → Reach e f → ℕ
chains here = 0
chains (next r (chain e s)) = suc (chains r)
chains (next r (round_info a e h)) = chains r
chains (next r (info a e h)) = chains r
chains (next r (blocks a e h)) = chains r
chains (next r (info_timeout h e a)) = chains r
chains (next r (blocks_timeout h e a)) = chains r
chains (next r (destroy e s)) = chains r

-- Whether the component is destroyed in a run, as a number.
abbrev pub destroys : {e f : Explorer} → Reach e f → ℕ
destroys here = 0
destroys (next r (chain e s)) = destroys r
destroys (next r (round_info a e h)) = destroys r
destroys (next r (info a e h)) = destroys r
destroys (next r (blocks a e h)) = destroys r
destroys (next r (info_timeout h e a)) = destroys r
destroys (next r (blocks_timeout h e a)) = destroys r
destroys (next r (destroy e s)) = suc (destroys r)

SameLoops : Explorer → Explorer → Type 0
SameLoops e f =
    (info_loops f ≡ info_loops e) × (block_loops f ≡ block_loops e) × (f.subscribed ≡ e.subscribed)

-- The assignments of an answer touch no poll.
record Unpolled (e f : Explorer) : Type 0 where
  rounds : f.rounds ≡ e.rounds
  info_requests : f.info_requests ≡ e.info_requests
  block_requests : f.block_requests ≡ e.block_requests
  armed_info : f.armed_info ≡ e.armed_info
  armed_blocks : f.armed_blocks ≡ e.armed_blocks
  subscribed : f.subscribed ≡ e.subscribed

set_info-Unpolled : (a : Result Value) (e : Explorer) → Unpolled e (set_info a e)
unfolding set_info
set_info-Unpolled a e = ground arith

set_blocks-Unpolled : (a : Result (List Block)) (e : Explorer) → Unpolled e (set_blocks a e)
unfolding set_blocks
set_blocks-Unpolled a e = ground arith

on_round_info-SameLoops :
    (a : Result Value) (e : Explorer) → 0 < e.rounds → SameLoops e (on_round_info a e)
unfolding SameLoops on_round_info arm_info
on_round_info-SameLoops a e h = ground (arith, set_info-Unpolled a e)

on_info-SameLoops :
    (a : Result Value) (e : Explorer) → 0 < e.info_requests → SameLoops e (on_info a e)
unfolding SameLoops on_info arm_info
on_info-SameLoops a e h = ground (arith, set_info-Unpolled a e)

on_blocks-SameLoops :
    (a : Result (List Block)) (e : Explorer) → 0 < e.block_requests → SameLoops e (on_blocks a e)
unfolding SameLoops on_blocks arm_blocks
on_blocks-SameLoops a e h = ground (arith, set_blocks-Unpolled a e)

info_timeout-SameLoops :
    (h : ℕ) (e : Explorer) → Armed h e.armed_info → SameLoops e (on_info_timeout h e)
unfolding SameLoops on_info_timeout
info_timeout-SameLoops h e a = ground (arith, length-remove a)

blocks_timeout-SameLoops :
    (h : ℕ) (e : Explorer) → Armed h e.armed_blocks → SameLoops e (on_blocks_timeout h e)
unfolding SameLoops on_blocks_timeout
blocks_timeout-SameLoops h e a = ground (arith, length-remove a)

length-clear :
    (t : Option ℕ) (xs : List ℕ)
    → (length xs ≤ suc (length (clear t xs))) × (length (clear t xs) ≤ length xs)
length-clear none xs = omega arith
length-clear (some h) xs = omega (arith, length-remove-le h xs)

-- Destroying the component ends at most one poll of either kind.
ng_on_destroy-loops :
    (e : Explorer)
    → ((info_loops e ≤ suc (info_loops (ng_on_destroy e)))
        × (info_loops (ng_on_destroy e) ≤ info_loops e))
      × ((block_loops e ≤ suc (block_loops (ng_on_destroy e)))
          × (block_loops (ng_on_destroy e) ≤ block_loops e))
unfolding ng_on_destroy
ng_on_destroy-loops e =
    omega
      (arith, length-clear e.timer_info e.armed_info, length-clear e.timer_blocks e.armed_blocks)

abbrev tally : Bool → ℕ
tally b = if b then 1 else 0

-- The component is told of chains until it is destroyed.
destroys-le : {e f : Explorer} (r : Reach e f) → destroys r + tally f.subscribed ≤ 1
unfolding on_chain ng_on_destroy SameLoops
destroys-le {e} here = ground arith
destroys-le (next r (chain e s)) = destroys-le r
destroys-le (next r (round_info a e h)) = rw (on_round_info-SameLoops a e h).2 (destroys-le r)
destroys-le (next r (info a e h)) = rw (on_info-SameLoops a e h).2 (destroys-le r)
destroys-le (next r (blocks a e h)) = rw (on_blocks-SameLoops a e h).2 (destroys-le r)
destroys-le (next r (info_timeout h e a)) = rw (info_timeout-SameLoops h e a).2 (destroys-le r)
destroys-le (next r (blocks_timeout h e a)) = rw (blocks_timeout-SameLoops h e a).2 (destroys-le r)
destroys-le (next r (destroy e s)) = ground (arith, destroys-le r, s)

-- Every choice of a chain adds a poll of either kind and nothing else adds one. Destroying the component, which can
-- happen once, ends at most one of either kind, and nothing else ends one.
pub Reach-loops :
    {e f : Explorer} (r : Reach e f)
    → ((info_loops f ≤ info_loops e + chains r)
        × (info_loops e + chains r ≤ info_loops f + destroys r))
      × ((block_loops f ≤ block_loops e + chains r)
          × (block_loops e + chains r ≤ block_loops f + destroys r))
      × (destroys r ≤ 1)
unfolding SameLoops on_chain
Reach-loops here = omega arith
Reach-loops (next r (chain e s)) = omega (arith, Reach-loops r)
Reach-loops (next r (round_info a e h)) =
    omega (arith, Reach-loops r, on_round_info-SameLoops a e h)
Reach-loops (next r (info a e h)) = omega (arith, Reach-loops r, on_info-SameLoops a e h)
Reach-loops (next r (blocks a e h)) = omega (arith, Reach-loops r, on_blocks-SameLoops a e h)
Reach-loops (next r (info_timeout h e a)) =
    omega (arith, Reach-loops r, info_timeout-SameLoops h e a)
Reach-loops (next r (blocks_timeout h e a)) =
    omega (arith, Reach-loops r, blocks_timeout-SameLoops h e a)
Reach-loops (next r (destroy e s)) =
    omega (arith, Reach-loops r, ng_on_destroy-loops e, destroys-le (next r (destroy e s)))
