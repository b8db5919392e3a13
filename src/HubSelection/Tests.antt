-- ===== src/HubSelection/Tests.antt =====
-- Two choices, one within the two seconds of the other.
use blockcore_gateway.Common.{◌≡◌, refl, false, some, [], ◌∷◌}
use blockcore_gateway.HubSelection.{
  SetupPage, hub, new, select, on_timeout, choose, timeout, Reach, here, next,
}

abbrev after_both : SetupPage
after_both = record { loading = false; selected = some "P1PsadkjfdsT13Aab"; timers = [] }

both_choices : Reach new after_both
unfolding new select on_timeout
both_choices =
    next
      (next (next (next here (choose "P0PsadkjfdsT13Aab" new)) (choose "P1PsadkjfdsT13Aab" _))
        (timeout "P0PsadkjfdsT13Aab" ("P1PsadkjfdsT13Aab" ∷ []) _ refl))
      (timeout "P1PsadkjfdsT13Aab" [] _ refl)

hub_of_both :
    hub after_both
    ≡ some (record {
      host = "https://hub.blockcore.net";
      id = "P1PsadkjfdsT13Aab";
      updated = "2020-05-27 06:00";
      name = "Blockcore Hub";
    })
unfolding hub
hub_of_both = refl
