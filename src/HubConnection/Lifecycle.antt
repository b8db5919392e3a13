-- ===== src/HubConnection/Lifecycle.antt =====
-- How often the service connects, and what it tells its subscribers.
use blockcore_gateway.Common.{
  ◌+◌, ◌≡◌, ◌<◌, ◌⊎◌, inl, refl, true, false, List, [], ◌∷◌, ◌++◌, arith,
}
use blockcore_gateway.HubConnection.{
  HubService, new, on_started, on_failed, on_timeout, on_server_event, invoke, Step, started,
  failed, timeout, server_event, invokes, Reach, here, next,
}

module _ {D : Type 0} where
  -- The one call of `start()` is pending, or it succeeded, or it failed: then a timeout is armed
  -- or has thrown.
  pub record Inv (s : HubService D) : Type 0 where
    pub one_call : s.start_calls ≡ 1
    pub one_handler : s.handlers ≡ 1
    pub phase :
        ((s.pending ≡ 1)
          × (s.timers + s.type_errors ≡ 0)
          × (s.connection_is_established ≡ false)
          × (s.established ≡ []))
        ⊎ ((s.pending ≡ 0)
            × (((s.timers + s.type_errors ≡ 0)
                  × (s.connection_is_established ≡ true)
                  × (s.established ≡ true ∷ []))
                ⊎ ((s.timers + s.type_errors ≡ 1)
                    × (s.connection_is_established ≡ false)
                    × (s.established ≡ []))))

  Step-Inv : {s t : HubService D} → Step s t → Inv s → Inv t
  unfolding on_started on_failed on_timeout on_server_event invoke
  Step-Inv (started s h) v = ground arith
  Step-Inv (failed s h) v = ground arith
  Step-Inv (timeout s h) v = ground arith
  Step-Inv (server_event d s) v = ground arith
  Step-Inv (invokes i s) v = ground arith

  Reach-Inv : {s : HubService D} → Reach new s → Inv s
  unfolding new
  Reach-Inv here = record {
    one_call = refl;
    one_handler = refl;
    phase = inl (omega arith, omega arith, refl, refl);
  }
  Reach-Inv (next r st) = Step-Inv st (Reach-Inv r)

  -- However the connection and the timeouts behave, `start()` is called once and no more: the
  -- retry that a failure announces does not happen.
  pub never_retries : {s : HubService D} → Reach new s → s.start_calls ≡ 1
  never_retries r = (Reach-Inv r).one_call

  HasFailed : HubService D → Type 0
  HasFailed s = (s.timers + s.type_errors ≡ 1) × (s.pending ≡ 0) × (s.established ≡ [])

  Step-HasFailed : {s t : HubService D} → Step s t → HasFailed s → HasFailed t
  unfolding HasFailed on_started on_failed on_timeout on_server_event invoke
  Step-HasFailed (started s h) v = absurd (omega arith)
  Step-HasFailed (failed s h) v = absurd (omega arith)
  Step-HasFailed (timeout s h) v = ground arith
  Step-HasFailed (server_event d s) v = ground arith
  Step-HasFailed (invokes i s) v = ground arith

  Reach-HasFailed : {s t : HubService D} → Reach s t → HasFailed s → HasFailed t
  Reach-HasFailed here v = v
  Reach-HasFailed (next r st) v = Step-HasFailed st (Reach-HasFailed r v)

  -- Once the timeout of a failed `start()` has been armed, or has run out, no later step
  -- establishes a connection or tells a subscriber of one.
  pub failed_forever :
      {s t : HubService D}
      → Reach new s
      → 0 < s.timers + s.type_errors
      → Reach s t
      → t.established ≡ []
  unfolding HasFailed
  failed_forever r h q =
      let v = Reach-Inv r in (Reach-HasFailed q (ground arith, ground arith, ground arith)).2

  -- The events that a run delivers, oldest first.
  abbrev pub delivered : {s t : HubService D} → Reach s t → List D
  delivered here = []
  delivered (next r (server_event d s)) = delivered r ++ d ∷ []
  delivered (next r (started s h)) = delivered r
  delivered (next r (failed s h)) = delivered r
  delivered (next r (timeout s h)) = delivered r
  delivered (next r (invokes i s)) = delivered r

  -- The subscribers get every event that the server sent, once each and in order.
  pub received-delivered : {s : HubService D} (r : Reach new s) → s.received ≡ delivered r
  unfolding new on_started on_failed on_timeout on_server_event invoke
  received-delivered here = refl
  received-delivered (next r (server_event d s)) =
      ground (arith, received-delivered r, (Reach-Inv r).one_handler)
  received-delivered (next r (started s h)) = received-delivered r
  received-delivered (next r (failed s h)) = received-delivered r
  received-delivered (next r (timeout s h)) = received-delivered r
  received-delivered (next r (invokes i s)) = received-delivered r
