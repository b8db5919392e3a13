-- ===== src/Theme/Toggling.antt =====
-- The mode through visits.
use blockcore_gateway.Common.{
  ℕ, zero, suc, ◌≡◌, sym, ap, ◌∙◌, String, Bool, not, some, arith, if◌then◌else◌,
}
use blockcore_gateway.Theme.{Browser, dark_mode, update_mode, set_dark_mode, toggle, visit}

toggle-dark_mode : (b : Browser) → dark_mode (toggle b) ≡ not (dark_mode b)
unfolding toggle set_dark_mode update_mode dark_mode
toggle-dark_mode b = ground arith

abbrev pub theme_of : Bool → String
theme_of dark = if dark then "dark" else "light"

toggle-theme : (b : Browser) → (toggle b).theme ≡ some (theme_of (dark_mode (toggle b)))
unfolding toggle set_dark_mode update_mode dark_mode
toggle-theme b = ground arith

update_mode-dark_mode :
    (b : Browser)
    → (dark_mode (update_mode b) ≡ dark_mode b)
      × ((update_mode b).theme ≡ some (theme_of (dark_mode (update_mode b))))
unfolding update_mode dark_mode
update_mode-dark_mode b = ground arith

abbrev pub flips : ℕ → Bool → Bool
flips zero dark = dark
flips (suc n) dark = not (flips n dark)

visit-dark_mode : (n : ℕ) (b : Browser) → dark_mode (visit n b) ≡ flips n (dark_mode b)
unfolding visit
visit-dark_mode zero b = (update_mode-dark_mode b).0
visit-dark_mode (suc n) b = toggle-dark_mode (visit n b) ∙ ap not (visit-dark_mode n b)

visit-theme : (n : ℕ) (b : Browser) → (visit n b).theme ≡ some (theme_of (dark_mode (visit n b)))
unfolding visit
visit-theme zero b = (update_mode-dark_mode b).1
visit-theme (suc n) b = toggle-theme (visit n b)

-- A visit shows the theme of the stored mode, flipped as often as it was toggled, and the next visit begins
-- with the theme that this one ends with.
pub visit_theme :
    (n : ℕ) (b : Browser)
    → ((visit n b).theme ≡ some (theme_of (flips n (dark_mode b))))
      × ((visit 0 (visit n b)).theme ≡ (visit n b).theme)
unfolding visit
visit_theme n b = (
  visit-theme n b ∙ ap (λ d. some (theme_of d)) (visit-dark_mode n b),
  (update_mode-dark_mode (visit n b)).1
      ∙ ap (λ d. some (theme_of d)) (update_mode-dark_mode (visit n b)).0
      ∙ sym (visit-theme n b),
)
