-- ===== src/Routes/Recognition.antt =====
-- What the client relies on of Angular's router: of the routes without children, the first whose path has
-- the segments of the url is taken, a parameter standing for any one segment.
use blockcore_gateway.Common.{◌≡◌, Bool, true, false, Option, none, some, List, [], ◌∷◌}
use blockcore_gateway.Js.Text.{Text, equal}
use blockcore_gateway.Routes.{Page, Segment, literal, parameter, Route, Found, Url}

abbrev and_bind : Text → Text → Option (List (Text × Text)) → Option (List (Text × Text))
and_bind name value none = none
and_bind name value (some rest) = some ((name, value) ∷ rest)

-- The rest decides first, so that the comparison is left out where the lengths differ.
abbrev when : Option (List (Text × Text)) → Bool → Option (List (Text × Text))
when none fits = none
when (some ps) true = some ps
when (some ps) false = none

-- The parameters under which a path has the segments of a url.
abbrev pub parameters_of : List Segment → Url → Option (List (Text × Text))
parameters_of [] [] = some []
parameters_of [] (u ∷ us) = none
parameters_of (s ∷ ss) [] = none
parameters_of (literal l ∷ ss) (u ∷ us) = when (parameters_of ss us) (equal l u)
parameters_of (parameter name ∷ ss) (u ∷ us) = and_bind name u (parameters_of ss us)

abbrev found_or : Page → Option (List (Text × Text)) → Option Found → Option Found
found_or page none rest = rest
found_or page (some ps) rest = some (record { page = page; parameters = ps })

abbrev pub first_fit : List Route → Url → Option Found
first_fit [] url = none
first_fit (r ∷ rs) url = found_or r.page (parameters_of r.path url) (first_fit rs url)

-- A router that does so.
abbrev pub TakesFirstFit : (List Route → Url → Option Found) → Type 0
TakesFirstFit recognize =
    (routes : List Route) (url : Url) → recognize routes url ≡ first_fit routes url
