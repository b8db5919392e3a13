-- ===== src/Theme.antt =====
-- The light and the dark mode: src/Blockcore.Hub/ClientApp/src/app/footer/footer.component.ts.
pub mod Toggling
mod Tests
use blockcore_gateway.Common.{
  ℕ, zero, suc, String, Bool, true, false, not, Option, none, some, opt_eq, if◌then◌else◌,
}

-- The two things that the component writes: the item 'dark-mode' of the local storage, which survives a visit,
-- and the attribute 'data-theme' of the document.
pub record Browser : Type 0 where
  pub stored : Option String
  pub theme : Option String

-- The getter of `darkMode`.
unfoldable pub dark_mode : Browser → Bool
dark_mode b = opt_eq b.stored (some "on")

unfoldable pub update_mode : Browser → Browser
update_mode b =
    if dark_mode b then record b { theme = some "dark" } else record b { theme = some "light" }

-- The setter of `darkMode`.
unfoldable pub set_dark_mode : Bool → Browser → Browser
set_dark_mode value b =
    if value
    then update_mode (record b { stored = some "on" })
    else update_mode (record b { stored = some "off" })

unfoldable pub toggle : Browser → Browser
toggle b = update_mode (set_dark_mode (not (dark_mode b)) b)

-- A visit: the component is created, and the mode is toggled so many times.
unfoldable pub visit : ℕ → Browser → Browser
visit zero b = update_mode b
visit (suc n) b = toggle (visit n b)
