-- ===== src/IdentityForm.antt =====
-- The form on the page of the identity: src/Blockcore.Hub/ClientApp/src/app/identity/identity.component.ts. The
-- form builder and the validators are Angular's.
pub mod Validity
mod Tests
use blockcore_gateway.Common.{
  ℕ, suc, ◌≡◌, Bool, true, false, Option, none, some, List, [], ◌∷◌, ◌++◌, String,
}
use blockcore_gateway.Js.Text.{Text, text}

-- A use of Angular's validators, by its name there.
pub data Validator : Type 0 where
  required : Validator
  min_length : ℕ → Validator
  max_length : ℕ → Validator

-- A control of the form: its name, its value at first, where `null` is none, and its validators.
pub record Control : Type 0 where
  pub name : Text
  pub initial : Option Text
  pub validators : List Validator

abbrev control : String → Option Text → List Validator → Control
control name initial validators = record {
  name = text name;
  initial = initial;
  validators = validators;
}

abbrev pub address_form : List Control
address_form =
    control "company" none []
    ∷ control "firstName" none (required ∷ [])
    ∷ control "lastName" none (required ∷ [])
    ∷ control "address" none (required ∷ [])
    ∷ control "address2" none []
    ∷ control "city" none (required ∷ [])
    ∷ control "state" none (required ∷ [])
    ∷ control "postalCode" none (required ∷ min_length 5 ∷ max_length 5 ∷ [])
    ∷ control "shipping" (some (text "free")) (required ∷ [])
    ∷ []

pub record State : Type 0 where
  pub name : Text
  pub abbreviation : Text

abbrev state : String → String → State
state name abbreviation = record { name = text name; abbreviation = text abbreviation }

abbrev pub states : List State
states =
    state "Alabama" "AL"
    ∷ state "Alaska" "AK"
    ∷ state "American Samoa" "AS"
    ∷ state "Arizona" "AZ"
    ∷ state "Arkansas" "AR"
    ∷ state "California" "CA"
    ∷ state "Colorado" "CO"
    ∷ state "Connecticut" "CT"
    ∷ state "Delaware" "DE"
    ∷ state "District Of Columbia" "DC"
    ∷ state "Federated States Of Micronesia" "FM"
    ∷ state "Florida" "FL"
    ∷ state "Georgia" "GA"
    ∷ state "Guam" "GU"
    ∷ state "Hawaii" "HI"
    ∷ state "Idaho" "ID"
    ∷ state "Illinois" "IL"
    ∷ state "Indiana" "IN"
    ∷ state "Iowa" "IA"
    ∷ state "Kansas" "KS"
    ∷ state "Kentucky" "KY"
    ∷ state "Louisiana" "LA"
    ∷ state "Maine" "ME"
    ∷ state "Marshall Islands" "MH"
    ∷ state "Maryland" "MD"
    ∷ state "Massachusetts" "MA"
    ∷ state "Michigan" "MI"
    ∷ state "Minnesota" "MN"
    ∷ state "Mississippi" "MS"
    ∷ state "Missouri" "MO"
    ∷ state "Montana" "MT"
    ∷ state "Nebraska" "NE"
    ∷ state "Nevada" "NV"
    ∷ state "New Hampshire" "NH"
    ∷ state "New Jersey" "NJ"
    ∷ state "New Mexico" "NM"
    ∷ state "New York" "NY"
    ∷ state "North Carolina" "NC"
    ∷ state "North Dakota" "ND"
    ∷ state "Northern Mariana Islands" "MP"
    ∷ state "Ohio" "OH"
    ∷ state "Oklahoma" "OK"
    ∷ state "Oregon" "OR"
    ∷ state "Palau" "PW"
    ∷ state "Pennsylvania" "PA"
    ∷ state "Puerto Rico" "PR"
    ∷ state "Rhode Island" "RI"
    ∷ state "South Carolina" "SC"
    ∷ state "South Dakota" "SD"
    ∷ state "Tennessee" "TN"
    ∷ state "Texas" "TX"
    ∷ state "Utah" "UT"
    ∷ state "Vermont" "VT"
    ∷ state "Virgin Islands" "VI"
    ∷ state "Virginia" "VA"
    ∷ state "Washington" "WA"
    ∷ state "West Virginia" "WV"
    ∷ state "Wisconsin" "WI"
    ∷ state "Wyoming" "WY"
    ∷ []

-- What the page shows the user: its title, and the alerts. hasUnitNumber is only set by the template.
pub record IdentityPage : Type 0 where
  pub title : Text
  pub has_unit_number : Bool
  pub alerts : List Text

pub new : IdentityPage
new = record { title = text "Identity"; has_unit_number = false; alerts = [] }

-- Whether the form is valid is not asked.
pub on_submit : IdentityPage → IdentityPage
on_submit page = record page { alerts = page.alerts ++ text "Thanks!" ∷ [] }
