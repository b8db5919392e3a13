-- ===== src/HubConnection/Tests.antt =====
-- Two lives of the connection.
use blockcore_gateway.Common.{ℕ, ◌≡◌, refl, arith}
use blockcore_gateway.HubConnection.{
  HubService, new, on_started, on_failed, on_timeout, on_server_event, started, failed, timeout,
  server_event, Reach, here, next,
}
use blockcore_gateway.HubConnection.Lifecycle.{never_retries}

abbrev lost : HubService ℕ
lost = on_timeout (on_failed new)

lost-Reach : Reach new lost
unfolding new on_failed
lost-Reach = next (next here (failed new (omega arith))) (timeout (on_failed new) (omega arith))

abbrev live : HubService ℕ
live = on_server_event 5 (on_server_event 4 (on_started new))

live-Reach : Reach new live
unfolding new
live-Reach =
    next (next (next here (started new (omega arith))) (server_event 4 _)) (server_event 5 _)

lost-type_errors : (lost.type_errors ≡ 1) × (lost.pending ≡ 0)
unfolding new on_failed on_timeout
lost-type_errors = (refl, refl)

never_retries_example : lost.start_calls ≡ 1
never_retries_example = never_retries lost-Reach
