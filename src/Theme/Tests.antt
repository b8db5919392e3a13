-- ===== src/Theme/Tests.antt =====
-- A first visit, with one toggle.
use blockcore_gateway.Common.{none, some, ◌≡◌, refl}
use blockcore_gateway.Theme.{Browser, visit, toggle, set_dark_mode, update_mode, dark_mode}

abbrev first : Browser
first = record { stored = none; theme = none }

toggled : (visit 1 first).theme ≡ some "dark"
unfolding visit toggle set_dark_mode update_mode dark_mode
toggled = refl
