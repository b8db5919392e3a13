-- ===== src/HubSelection.antt =====
-- The choice of a hub on the setup page: src/Blockcore.Hub/ClientApp/src/app/setup/setup.component.ts.
pub mod Settled
mod Tests
use blockcore_gateway.Common.{
  ◌≡◌, String, Bool, true, false, Option, none, some, List, [], ◌∷◌, ◌++◌, find_by, opt_eq,
}

pub record Hub : Type 0 where
  pub host : String
  pub id : String
  pub updated : String
  pub name : String

-- `timers`: the values that wait for the end of their two seconds. Those are the same for all, so that the
-- timeouts run in the order in which they were armed.
pub record SetupPage : Type 0 where
  pub loading : Bool
  pub selected : Option String
  pub timers : List String

abbrev pub hubs : List Hub
hubs =
    record {
      host = "https://localhost:9912";
      id = "local";
      updated = "2020-05-26 12:00";
      name = "Local";
    }
    ∷ record {
      host = "http://20.20.20.20";
      id = "P0PsadkjfdsT13Aab";
      updated = "2020-05-26 12:00";
      name = "Haxxors Paradise";
    }
    ∷ record {
      host = "https://hub.blockcore.net";
      id = "P1PsadkjfdsT13Aab";
      updated = "2020-05-27 06:00";
      name = "Blockcore Hub";
    }
    ∷ record {
      host = "https://hub2.blockcore.net";
      id = "P2PsadkjfdsT13Aab";
      updated = "2020-05-28 14:00";
      name = "Blockcore Hub (2)";
    }
    ∷ []

pub new : SetupPage
new = record { loading = false; selected = some "local"; timers = [] }

-- The setter of `selectedHubId`.
pub select : String → SetupPage → SetupPage
select value s = record { selected = none; loading = true; timers = s.timers ++ value ∷ [] }

-- The callback of the timeout that was armed with `value`.
pub on_timeout : String → SetupPage → SetupPage
on_timeout value s = record s { loading = false; selected = some value }

-- The getter `hub`; `none` is `undefined`.
unfoldable pub hub : SetupPage → Option Hub
hub s = find_by (λ h. opt_eq (some h.id) s.selected) hubs

pub data Step : SetupPage → SetupPage → Type 0 where
  choose : (value : String) (s : SetupPage) → Step s (select value s)
  timeout :
      (value : String) (rest : List String) (s : SetupPage)
      → s.timers ≡ value ∷ rest
      → Step s (on_timeout value (record s { timers = rest }))

pub data Reach (s : SetupPage) : SetupPage → Type 0 where
  here : Reach s s
  next : {t u : SetupPage} → Reach s t → Step t u → Reach s u
