-- ===== src/IdentityForm/Validity.antt =====
-- When the form is valid.
use blockcore_gateway.Common.{
  ℕ, ◌≡◌, refl, ap₂, ◌∙◌, Bool, true, false, not, ◌&&◌, ◌||◌, Option, none, some, List, [], ◌∷◌,
  leb, ◌==◌, arith, length,
}
use blockcore_gateway.Js.Text.{Text, text}
use blockcore_gateway.IdentityForm.{
  Validator, required, min_length, max_length, Control, address_form,
}

abbrev pub filled : Option Text → Bool
filled none = false
filled (some []) = false
filled (some (c ∷ cs)) = true

abbrev pub length_of : Option Text → ℕ
length_of none = 0
length_of (some s) = length s

abbrev pub all_of : List Bool → Bool
all_of [] = true
all_of (b ∷ bs) = b && all_of bs

both : {a b c d : Bool} → a ≡ b → c ≡ d → (a && c) ≡ (b && d)
both e f = ap₂ ◌&&◌ e f

and_true : (b : Bool) → (b && true) ≡ b
and_true true = refl
and_true false = refl

abbrev accepted_by : (Validator → Option Text → Bool) → List Validator → Option Text → Bool
accepted_by accepts [] v = true
accepted_by accepts (x ∷ xs) v = accepts x v && accepted_by accepts xs v

abbrev pub all_accepted :
    (Validator → Option Text → Bool) → List Control → (Text → Option Text) → Bool
all_accepted accepts [] values = true
all_accepted accepts (c ∷ cs) values =
    accepted_by accepts c.validators (values c.name) && all_accepted accepts cs values

-- What the page relies on of Angular's forms: `required` refuses null and the empty string, the lengths are
-- not looked at where there is no text, and a group is valid when no validator of a control refuses its value.
pub record AngularForms (accepts : Validator → Option Text → Bool)
    (valid : List Control → (Text → Option Text) → Bool) : Type 0 where
  pub accepts-required : (v : Option Text) → accepts required v ≡ filled v
  pub accepts-min_length :
      (n : ℕ) (v : Option Text) → accepts (min_length n) v ≡ (not (filled v) || leb n (length_of v))
  pub accepts-max_length :
      (n : ℕ) (v : Option Text) → accepts (max_length n) v ≡ (not (filled v) || leb (length_of v) n)
  pub valid-controls :
      (cs : List Control) (values : Text → Option Text)
      → valid cs values ≡ all_accepted accepts cs values

five :
    (v : Option Text)
    → (filled v
        && ((not (filled v) || leb 5 (length_of v))
            && ((not (filled v) || leb (length_of v) 5) && true)))
      ≡ (length_of v == 5)
five none = refl
five (some []) = refl
five (some (c ∷ cs)) = ground arith

module _ {accepts : Validator → Option Text → Bool}
    {valid : List Control → (Text → Option Text) → Bool} (forms : AngularForms accepts valid) where
  accepted-required : (v : Option Text) → accepted_by accepts (required ∷ []) v ≡ filled v
  accepted-required v = rw (forms.accepts-required v) (and_true (filled v))

  accepted-postal_code :
      (v : Option Text)
      → accepted_by accepts (required ∷ min_length 5 ∷ max_length 5 ∷ []) v ≡ (length_of v == 5)
  accepted-postal_code v =
      rw (forms.accepts-required v, forms.accepts-min_length 5 v, forms.accepts-max_length 5 v)
        (five v)

  -- The form is valid exactly when the first and the last name, the address, the city, the state and the
  -- shipping are not empty and the postal code has five characters; the company and the second line of the
  -- address do not count.
  pub valid-address_form :
      (values : Text → Option Text)
      → valid address_form values
        ≡ all_of (
            filled (values (text "firstName"))
            ∷ filled (values (text "lastName"))
            ∷ filled (values (text "address"))
            ∷ filled (values (text "city"))
            ∷ filled (values (text "state"))
            ∷ (length_of (values (text "postalCode")) == 5)
            ∷ filled (values (text "shipping"))
            ∷ [])
  valid-address_form values =
      forms.valid-controls address_form values
      ∙ both (accepted-required _) (
          both (accepted-required _) (
            both (accepted-required _) (
              both (accepted-required _) (
                both (accepted-required _)
                  (both (accepted-postal_code _) (both (accepted-required _) refl))))))
