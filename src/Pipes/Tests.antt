-- ===== src/Pipes/Tests.antt =====
-- What the pipe for answers makes of values that are no answers.
use blockcore_gateway.Common.{◌≡◌, refl, true, false}
use blockcore_gateway.Js.Text.{text}
use blockcore_gateway.Js.Value.{bool, str, undefined, truthy}
use blockcore_gateway.Pipes.{yes}

answers :
    (yes (bool true) ≡ text "Yes") × (yes (bool false) ≡ text "No") × (yes undefined ≡ text "No")
unfolding truthy
answers = (refl, refl, refl)

any_text : yes (str "No") ≡ text "Yes"
unfolding truthy
any_text = refl
