-- ===== src/ErrorPanel.antt =====
-- The panel that shows an error: src/Blockcore.Hub/ClientApp/src/app/error/error.component.ts.
mod Stale
use blockcore_gateway.Common.{
  ℕ, zero, suc, ◌*◌, Bool, true, false, Option, none, some, List, [], ◌∷◌, ◌++◌, ◌==◌,
}
use blockcore_gateway.Js.Text.{Text, text}
use blockcore_gateway.Js.Value.{Value, ℤ, pos, num}

-- What the input `error` may hold: nothing, an `HttpError`, another `Error`, or something else, which is shown as it
-- is. Errors come with their stack.
pub data Shown : Type 0 where
  nothing : Shown
  http : Value → Text → Text → Text → Shown
  plain : Text → Text → Shown
  raw : Text → Shown

pub record Panel : Type 0 where
  pub message : Option Text
  pub details : Option Text
  pub stack : Option Text

power_of_ten : ℕ → ℕ
power_of_ten zero = 1
power_of_ten (suc e) = 10 * power_of_ten e

-- `code === 404`
unfoldable pub is_404 : Value → Bool
unfolding power_of_ten
is_404 (Value.num (pos n) e) = n == 404 * power_of_ten e
is_404 v = false

-- `ngOnChanges`; `show` is how the language writes a value in a text.
module _ (show : Value → Text) where
  unfoldable pub on_changes : Shown → Panel → Panel
  on_changes nothing p = p
  on_changes (http code url message stack) p = elim (is_404 code) [
    | true ↦ record {
      message = some (text "Not found (404)");
      details = some url;
      stack = some stack;
    }
    | false ↦ record {
      message = some (message ++ (text " (" ++ (show code ++ text ")")));
      details = some url;
      stack = some stack;
    }
  ]
  on_changes (plain message stack) p = record p {
    message = some (text "Error occured: " ++ message);
    stack = some stack;
  }
  on_changes (raw value) p = record p { message = some value }

  unfoldable pub changes : List Shown → Panel → Panel
  changes [] p = p
  changes (e ∷ es) p = changes es (on_changes e p)
