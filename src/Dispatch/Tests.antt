-- ===== src/Dispatch/Tests.antt =====
-- Three handlers of two commands; calling one appends its name.
use blockcore_gateway.Common.{ℕ, ◌≡◌, refl, String, Option, none, some, List, [], ◌∷◌, ◌++◌}
use blockcore_gateway.Dispatch.{Handler, build, process, run_handlers}
use blockcore_gateway.Dispatch.Registration.{handlers_for}
use blockcore_gateway.Dispatch.Processing.{run_in_order, process-build}

abbrev handlers : List Handler
handlers =
    record { command = 1; message_type = "A"; name = "first" }
    ∷ record { command = 2; message_type = "B"; name = "other" }
    ∷ record { command = 1; message_type = "A"; name = "second" }
    ∷ []

abbrev call : Handler → List String → List String × Option ℕ
call h s = (s ++ h.name ∷ [], none)

process-build_example :
    process call (build [] handlers) (some 1) [] ≡ run_in_order call 1 (handlers_for 1 handlers) []
process-build_example = process-build call handlers 1 []

in_order : run_in_order call 1 (handlers_for 1 handlers) [] ≡ ("first" ∷ "second" ∷ [], none)
unfolding run_handlers
in_order = refl
