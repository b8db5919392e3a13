-- ===== src/Dashboard.antt =====
-- The cards and the lists on the pages src/Blockcore.Hub/ClientApp/src/app/dashboard/dashboard.component.ts and
-- apps/apps.component.ts. Whether the screen is that of a handset is told by the UI library.
mod Tests
use blockcore_gateway.Common.{ℕ, String, Bool, true, false, List, [], ◌∷◌}
use blockcore_gateway.Js.Text.{Text, text}

pub record Section : Type 0 where
  pub name : Text
  pub icon : Text
  pub description : Text

pub record Card : Type 0 where
  pub title : Text
  pub cols : ℕ
  pub rows : ℕ

abbrev section : String → String → String → Section
section name icon description = record {
  name = text name;
  icon = text icon;
  description = text description;
}

abbrev card : String → ℕ → ℕ → Card
card title cols rows = record { title = text title; cols = cols; rows = rows }

-- The cards of the dashboard, given whether the screen matches a handset.
unfoldable pub cards : Bool → List Card
cards true = card "Card 1" 1 1 ∷ card "Card 2" 1 1 ∷ card "Card 3" 1 1 ∷ card "Card 4" 1 1 ∷ []
cards false = card "Card 1" 2 1 ∷ card "Card 2" 1 1 ∷ card "Card 3" 1 2 ∷ card "Card 4" 1 1 ∷ []

unfoldable pub app_cards : Bool → List Card
app_cards true =
    card "Crypto Animals" 1 1
    ∷ card "Casino" 1 1
    ∷ card "Grid Map" 1 1
    ∷ card "Crypto Kittens" 1 1
    ∷ []
app_cards false =
    card "Crypto Animals" 2 1
    ∷ card "Casino" 1 1
    ∷ card "Grid Map" 1 2
    ∷ card "Crypto Kittens" 1 1
    ∷ []

abbrev pub features : List Section
features =
    section "DocumentStorage" "note" "Provides storage of data entities"
    ∷ section "FileSharing" "note" "Provides query and download of files"
    ∷ section "Node" "note" "Provides blockchain node capabilities"
    ∷ []

abbrev pub dashboard_apps : List Section
dashboard_apps =
    section "Casino" "casino" "Basic casino running on your Hub"
    ∷ section "Grid Map" "map" "Property Registry for Grid Maps"
    ∷ section "Crypto Pets" "pets" "Cute cryptographic pets"
    ∷ section "Polls" "poll" "Host polls and results"
    ∷ section "Casino" "casino" "Basic casino running on your Hub"
    ∷ section "Grid Map" "map" "Property Registry for Grid Maps"
    ∷ []
