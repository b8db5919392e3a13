-- ===== src/Overlap/Twice.antt =====
-- Two messages of a hub that are handled at the same time.
use blockcore_gateway.Common.{◌≡◌, String, false, List, [], ◌∷◌, ◌++◌, arith}
use blockcore_gateway.Overlap.{
  Stage, looking, passed, Handling, Handlings, is_listed, go_on, thread_goes_on,
}

abbrev pub handling : String → Stage → Handling
handling id stage = record { id = id; stage = stage }

-- Two threads for messages of one hub take turns: both look, then both add.
abbrev pub in_turns : Handlings → Handlings
in_turns s = thread_goes_on 1 (thread_goes_on 0 (thread_goes_on 1 (thread_goes_on 0 s)))

-- A hub that is not listed yet and that sends its message by both protocols at once is listed twice, if both
-- threads look for it before one of them adds it.
pub in_turns-twice :
    (id : String) (ids : List String) (behind : List Handling)
    → is_listed id ids ≡ false
    → in_turns (record { ids = ids; threads = handling id looking ∷ handling id looking ∷ behind })
      ≡ record {
        ids = (ids ++ id ∷ []) ++ id ∷ [];
        threads = handling id passed ∷ handling id passed ∷ behind;
      }
unfolding thread_goes_on go_on
in_turns-twice id ids behind e = ground (arith, e)
