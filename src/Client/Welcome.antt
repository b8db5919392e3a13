-- ===== src/Client/Welcome.antt =====
-- The welcome that app.component.ts shows at the start of the client.
use blockcore_gateway.Common.{
  ℕ, ◌≡◌, Bool, true, false, List, [], ◌∷◌, leb, ltb, arith, if◌then◌else◌,
}

pub record WelcomeScreen : Type 0 where
  pub welcome_loaded : Bool
  pub welcome_loaded_second : Bool
  pub welcome_visible : Bool
  pub welcome_logo : Bool

abbrev pub at_start : WelcomeScreen
at_start = record {
  welcome_loaded = false;
  welcome_loaded_second = false;
  welcome_visible = true;
  welcome_logo = true;
}

-- The callbacks of the four timeouts.
pub data Callback : Type 0 where
  logo loaded loaded_second hidden : Callback

unfoldable pub call_back : Callback → WelcomeScreen → WelcomeScreen
call_back logo w = record w { welcome_logo = true }
call_back loaded w = record w { welcome_loaded = true }
call_back loaded_second w = record w { welcome_loaded_second = true }
call_back hidden w = record w { welcome_visible = false }

-- They are armed together, by their delays in milliseconds.
abbrev pub timeouts : List (ℕ × Callback)
timeouts = (1400, logo) ∷ (2400, loaded) ∷ (2700, loaded_second) ∷ (5000, hidden) ∷ []

-- The browser has called those that were due.
unfoldable pub elapse : List (ℕ × Callback) → ℕ → WelcomeScreen → WelcomeScreen
elapse [] t w = w
elapse ((delay, c) ∷ rest) t w = elapse rest t (if leb delay t then call_back c w else w)

-- After t milliseconds the welcome is on the screen exactly while t is below 5000, its first line is there from
-- 2400 and its second from 2700 on, and the logo always was.
pub elapse-timeouts :
    (t : ℕ)
    → let w = elapse timeouts t at_start in
      (w.welcome_visible ≡ ltb t 5000)
      × (w.welcome_loaded ≡ leb 2400 t)
      × (w.welcome_loaded_second ≡ leb 2700 t)
      × (w.welcome_logo ≡ true)
unfolding elapse call_back
elapse-timeouts t = (ground arith, ground arith, ground arith, ground arith)
