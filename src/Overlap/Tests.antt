-- ===== src/Overlap/Tests.antt =====
-- Hub a tells of itself twice.
use blockcore_gateway.Common.{◌≡◌, ◌≤◌, refl, [], ◌∷◌, arith}
use blockcore_gateway.Overlap.{
  looking, passed, Handlings, is_listed, go_on, thread_goes_on, arrives, goes_on, Reach, at_first,
  step,
}
use blockcore_gateway.Overlap.Counting.{copies}
use blockcore_gateway.Overlap.Apart.{ReachApart, ReachApart-single}
use blockcore_gateway.Overlap.Twice.{handling, in_turns, in_turns-twice}

abbrev arrived : Handlings
arrived = record { ids = []; threads = handling "a" looking ∷ handling "a" looking ∷ [] }

both_arrive : Reach arrived
both_arrive = step (step at_first (arrives "a")) (arrives "a")

all_go_on : Reach (in_turns arrived)
all_go_on = step (step (step (step both_arrive (goes_on 0)) (goes_on 1)) (goes_on 0)) (goes_on 1)

in_turns-twice_example :
    in_turns arrived
    ≡ record { ids = "a" ∷ "a" ∷ []; threads = handling "a" passed ∷ handling "a" passed ∷ [] }
unfolding is_listed
in_turns-twice_example = in_turns-twice "a" [] [] refl

abbrev first_arrives : Handlings
first_arrives = record { ids = []; threads = handling "a" looking ∷ [] }

abbrev first_passes : Handlings
first_passes = thread_goes_on 0 (thread_goes_on 0 first_arrives)

one_by_one : ReachApart "a" first_passes
unfolding thread_goes_on go_on is_listed
one_by_one =
    ReachApart.step
      (ReachApart.step (ReachApart.step ReachApart.at_first (arrives "a") (omega arith)) (goes_on 0)
        (omega arith))
      (goes_on 0) (omega arith)

ReachApart-single_example : copies "a" first_passes.ids ≤ 1
ReachApart-single_example = ReachApart-single "a" one_by_one
