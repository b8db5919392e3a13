-- ===== src/IdentityForm/Tests.antt =====
-- Runs of the form, with validators that behave as Angular's.
use blockcore_gateway.Common.{
  ◌≡◌, refl, Bool, true, false, not, ◌&&◌, ◌||◌, Option, none, some, List, [], ◌∷◌, leb, length,
  map,
}
use blockcore_gateway.Js.Text.{Text, text, equal}
use blockcore_gateway.IdentityForm.{
  Validator, required, min_length, max_length, address_form, states, new, on_submit,
}
use blockcore_gateway.IdentityForm.Validity.{filled, length_of, all_accepted, AngularForms}

abbrev accepts : Validator → Option Text → Bool
accepts required v = filled v
accepts (min_length n) v = not (filled v) || leb n (length_of v)
accepts (max_length n) v = not (filled v) || leb (length_of v) n

forms : AngularForms accepts (all_accepted accepts)
forms = record {
  accepts-required = λ v. refl;
  accepts-min_length = λ n v. refl;
  accepts-max_length = λ n v. refl;
  valid-controls = λ cs values. refl;
}

-- Every field has the same five characters.
abbrev five_letters : Text → Option Text
five_letters name = some (text "Norge")

at_first : all_accepted accepts address_form (λ name. none) ≡ false
at_first = refl

thanked : (on_submit new).alerts ≡ text "Thanks!" ∷ []
unfolding new on_submit
thanked = refl

abbrev new_among : List Text → Text → Bool
new_among [] s = true
new_among (t ∷ ts) s = not (equal t s) && new_among ts s

abbrev all_new : List Text → Bool
all_new [] = true
all_new (t ∷ ts) = new_among ts t && all_new ts

-- No two states are abbreviated alike.
abbreviations : all_new (map (λ s. s.abbreviation) states) ≡ true
abbreviations = refl

how_many : length states ≡ 59
how_many = refl
