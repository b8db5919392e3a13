-- ===== src/Peers/Session.antt =====
-- What holds of the list of peers after any sequence of events.
use blockcore_gateway.Common.{ℕ, ◌+◌, ◌≤◌, List, [], ◌∷◌, arith, All, length}
use blockcore_gateway.Peers.{HubEvent, PeerService, new, on_event, after, run}
use blockcore_gateway.Peers.Located.{HasData}
use blockcore_gateway.Peers.Handler.{on_event-HasData, additions, length-on_event-le}

abbrev pub total_additions : List HubEvent → ℕ
total_additions [] = 0
total_additions (e ∷ es) = additions e + total_additions es

run_from-HasData :
    (s : PeerService) (es : List HubEvent)
    → All HasData s.peers
    → All HasData es
    → All HasData (run s es).peers
unfolding run
run_from-HasData s [] h _ = h
run_from-HasData s (e ∷ es) h (d, ds) =
    let (t, handled, k) = on_event-HasData e s d h in
    run_from-HasData (after s (on_event e s)) es (rw handled k) ds

length-run_from-le :
    (s : PeerService) (es : List HubEvent)
    → length (run s es).peers ≤ length s.peers + total_additions es
unfolding run
length-run_from-le s [] = omega arith
length-run_from-le s (e ∷ es) =
    omega (arith, length-on_event-le e s, length-run_from-le (after s (on_event e s)) es)

-- After any events that carry data every peer has data, so that no later event with data throws,
-- and there are at most as many peers as there were additions.
pub run-HasData :
    (es : List HubEvent)
    → All HasData es
    → All HasData (run new es).peers × (length (run new es).peers ≤ total_additions es)
run-HasData es ds = (run_from-HasData new es tt ds, omega (arith, length-run_from-le new es))
