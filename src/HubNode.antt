-- ===== src/HubNode.antt =====
-- What a hub knows of the other hubs, src/Blockcore.Hub.Networking: Entities/HubInfo.cs, Messages/HubInfoMessage.cs,
-- ConnectionTypes.cs. How the platform parses and prints endpoints, addresses and the names of an enumeration is a
-- parameter.
pub mod Acking
pub mod Acknowledged
pub mod Meeting
pub mod Heard
pub mod Met
pub mod Publishing
pub mod Answering
pub mod Searching
pub mod Reaching
pub mod Updating
mod Tests
use mathlib.Core.Option
use blockcore_gateway.Common.{
  ℕ, zero, suc, ◌≡◌, Bool, true, false, Option, none, some, List, [], ◌∷◌, ◌++◌, map, if◌then◌else◌,
}
use blockcore_gateway.Js.Text.{Text, text, equal}

pub data ConnectionTypes : Type 0 where
  unknown lan wan : ConnectionTypes

-- A string that may be null is an Option.
pub record HubInfoMessage : Type 0 where
  pub id : Text
  pub name : Option Text
  pub external_endpoint : Option Text
  pub internal_endpoint : Option Text
  pub connection_type : Option Text
  pub internal_addresses : Option (List Text)
  pub first_name : Option Text

-- The fields that a message can set; an endpoint that is not known is none.
pub record HubInfo (Endpoint Address : Type 0) : Type 0 where
  pub id : Text
  pub name : Option Text
  pub external_endpoint : Option Endpoint
  pub internal_endpoint : Option Endpoint
  pub first_name : Option Text
  pub connection_type : ConnectionTypes
  pub internal_addresses : List Address

-- What the code calls of the platform. `none` is an exception, except that `parse_type` is given what may be null.
pub record Platform (Endpoint Address : Type 0) : Type 0 where
  pub is_null_or_white_space : Option Text → Bool
  pub parse_endpoint : Text → Option Endpoint
  pub parse_address : Text → Option Address
  pub parse_type : Option Text → Option ConnectionTypes
  pub endpoint_text : Endpoint → Text
  pub address_text : Address → Text
  pub type_text : ConnectionTypes → Text

module _ {Endpoint Address : Type 0} (p : Platform Endpoint Address) where
  abbrev text_of : Option Text → Text
  text_of none = []
  text_of (some t) = t

  -- The value that an endpoint of a message gives to a field, which keeps its old value where there is none.
  unfoldable pub read_endpoint : Option Text → Option Endpoint → Option (Option Endpoint)
  read_endpoint t old =
      if p.is_null_or_white_space t
      then some old
      else elim (p.parse_endpoint (text_of t)) [ none ↦ none | some e ↦ some (some e) ]

  -- `InternalAddresses.Add(IPAddress.Parse(addr))` for each, and whether all could be parsed: those before a
  -- failure stay.
  unfoldable pub add_addresses :
      List Text → HubInfo Endpoint Address → HubInfo Endpoint Address × Bool
  add_addresses [] h = (h, true)
  add_addresses (t ∷ ts) h = elim (p.parse_address t) [
    | none ↦ (h, false)
    | some a ↦ add_addresses ts (record h { internal_addresses = h.internal_addresses ++ a ∷ [] })
  ]

  -- `Update(HubInfoMessage)` from its addresses on. The result is what the method returns, or none for an exception; the
  -- hub is changed up to there.
  unfoldable pub update_addresses :
      Option (List Text) → HubInfo Endpoint Address → HubInfo Endpoint Address × Option Bool
  update_addresses none h = (h, some true)
  update_addresses (some []) h = (h, some true)
  update_addresses (some (t ∷ ts)) h =
      let (g, parsed) = add_addresses (t ∷ ts) (record h { internal_addresses = [] }) in
      (g, if parsed then some true else none)

  unfoldable pub update_internal :
      HubInfoMessage → HubInfo Endpoint Address → HubInfo Endpoint Address × Option Bool
  update_internal m h = elim (read_endpoint m.internal_endpoint h.internal_endpoint) [
    | none ↦ (h, none)
    | some e ↦ update_addresses m.internal_addresses (record h { internal_endpoint = e })
  ]

  unfoldable pub update_external :
      HubInfoMessage → HubInfo Endpoint Address → HubInfo Endpoint Address × Option Bool
  update_external m h = elim (read_endpoint m.external_endpoint h.external_endpoint) [
    | none ↦ (h, none)
    | some e ↦ update_internal m (record h { external_endpoint = e })
  ]

  unfoldable pub update_type :
      HubInfoMessage → HubInfo Endpoint Address → HubInfo Endpoint Address × Option Bool
  update_type m h = elim (p.parse_type m.connection_type) [
    | none ↦ (h, none)
    | some t ↦ update_external m (record h { connection_type = t; first_name = m.first_name })
  ]

  -- `Update(HubInfoMessage)`
  unfoldable pub update :
      HubInfoMessage → HubInfo Endpoint Address → HubInfo Endpoint Address × Option Bool
  update m h =
      let changed = update_type m (record h { name = m.name }) in
      if equal h.id m.id then changed else (h, some false)

  -- `ToMessage`, which leaves the first name out.
  unfoldable pub to_message : HubInfo Endpoint Address → HubInfoMessage
  to_message h = record {
    id = h.id;
    name = h.name;
    external_endpoint = elim h.external_endpoint [
      | none ↦ none
      | some e ↦ some (p.endpoint_text e)
    ];
    internal_endpoint = elim h.internal_endpoint [
      | none ↦ none
      | some e ↦ some (p.endpoint_text e)
    ];
    connection_type = some (p.type_text h.connection_type);
    internal_addresses = some (map p.address_text h.internal_addresses);
    first_name = none;
  }

  -- `Simplified`
  unfoldable pub simplified : HubInfo Endpoint Address → HubInfo Endpoint Address
  simplified h = record h { first_name = none; connection_type = unknown; internal_addresses = [] }

  abbrev all_added : HubInfo Endpoint Address × Bool → Option (HubInfo Endpoint Address)
  all_added (h, true) = some h
  all_added (h, false) = none

  -- The constructor from a message; an exception leaves no object.
  unfoldable pub of_message : HubInfoMessage → Option (HubInfo Endpoint Address)
  of_message m = Option.bind (read_endpoint m.external_endpoint none) (λ external.
      Option.bind (read_endpoint m.internal_endpoint none) (λ internal.
        Option.bind (p.parse_type m.connection_type) (λ type. all_added (
          add_addresses (elim m.internal_addresses [ none ↦ [] | some ts ↦ ts ])
            (record {
              id = m.id;
              name = m.name;
              external_endpoint = external;
              internal_endpoint = internal;
              first_name = m.first_name;
              connection_type = type;
              internal_addresses = [];
            })))))
