-- ===== src/ErrorPanel/Stale.antt =====
-- Which details are shown beside a message.
use blockcore_gateway.Common.{◌≡◌, refl, Option, some, List, [], ◌∷◌, Bool-cases, inl, inr, arith}
use blockcore_gateway.Js.Text.{Text}
use blockcore_gateway.Js.Value.{Value}
use blockcore_gateway.ErrorPanel.{
  Shown, nothing, http, plain, raw, Panel, is_404, on_changes, changes,
}

-- The url of the last `HttpError`, if there was one.
abbrev last_url : List Shown → Option Text → Option Text
last_url [] d = d
last_url (nothing ∷ es) d = last_url es d
last_url (http code url message stack ∷ es) d = last_url es (some url)
last_url (plain message stack ∷ es) d = last_url es d
last_url (raw value ∷ es) d = last_url es d

-- The panel shows the url of the last `HttpError`, also beside the message of a later error that is none.
changes-details :
    (show : Value → Text) (es : List Shown) (p : Panel)
    → (changes show es p).details ≡ last_url es p.details
unfolding changes on_changes
changes-details show [] p = refl
changes-details show (nothing ∷ es) p = changes-details show es p
changes-details show (http code url message stack ∷ es) p = elim (Bool-cases (is_404 code)) [
  | inl e ↦
      ground (arith, changes-details show es (on_changes show (http code url message stack) p))
  | inr e ↦
      ground (arith, changes-details show es (on_changes show (http code url message stack) p))
]
changes-details show (plain message stack ∷ es) p = changes-details show es _
changes-details show (raw value ∷ es) p = changes-details show es _
