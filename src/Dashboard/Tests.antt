-- ===== src/Dashboard/Tests.antt =====
-- The cards on a handset and on other screens.
use blockcore_gateway.Common.{ℕ, ◌≡◌, refl, Bool, true, false, List, [], ◌∷◌, map, ◌*◌, ◌+◌, length}
use blockcore_gateway.Dashboard.{Card, cards, app_cards, dashboard_apps}

-- A screen shows the same cards in the same order as a handset.
same_cards :
    (handset : Bool) → map (λ c. c.title) (cards handset) ≡ map (λ c. c.title) (cards false)
unfolding cards
same_cards true = refl
same_cards false = refl

same_app_cards :
    (handset : Bool) → map (λ c. c.title) (app_cards handset) ≡ map (λ c. c.title) (app_cards false)
unfolding app_cards
same_app_cards true = refl
same_app_cards false = refl

abbrev area : List Card → ℕ
area [] = 0
area (c ∷ cs) = c.cols * c.rows + area cs

-- Six cells: three rows of two.
areas : (area (cards false) ≡ 6) × (area (cards true) ≡ 4)
unfolding cards
areas = (refl, refl)

sections : length dashboard_apps ≡ 6
sections = refl
