-- ===== src/HubNode/Updating.antt =====
-- What a hub knows after a message about another hub.
use mathlib.Core.Option
use mathlib.Core.List.{append-nil, append_assoc}
use blockcore_gateway.Common.{
  ◌≡◌, refl, sym, ◌∙◌, true, false, Option, none, some, List, [], ◌∷◌, ◌++◌, map,
}
use blockcore_gateway.Js.Text.Search.{equal_iff}
use blockcore_gateway.HubNode.{
  ConnectionTypes, HubInfo, Platform, read_endpoint, add_addresses, update_addresses,
  update_internal, update_external, update_type, update, to_message, of_message,
}

-- What the platform prints it parses again, and no endpoint is printed as white space; null is white space.
pub record Prints {Endpoint Address : Type 0} (p : Platform Endpoint Address) : Type 0 where
  pub white_space-null : p.is_null_or_white_space none ≡ true
  pub white_space-endpoint :
      (e : Endpoint) → p.is_null_or_white_space (some (p.endpoint_text e)) ≡ false
  pub parse_endpoint-text : (e : Endpoint) → p.parse_endpoint (p.endpoint_text e) ≡ some e
  pub parse_address-text : (a : Address) → p.parse_address (p.address_text a) ≡ some a
  pub parse_type-text : (t : ConnectionTypes) → p.parse_type (some (p.type_text t)) ≡ some t

-- The first of two that is there.
abbrev pub or_known {ℓ} : {A : Type ℓ} → Option A → Option A → Option A
or_known none old = old
or_known (some a) old = some a

or_known-none {ℓ} : {A : Type ℓ} (e : Option A) → or_known e none ≡ e
or_known-none none = refl
or_known-none (some x) = refl

abbrev pub or_listed {ℓ} : {A : Type ℓ} → List A → List A → List A
or_listed [] old = old
or_listed (a ∷ xs) old = a ∷ xs

module _ {Endpoint Address : Type 0} {p : Platform Endpoint Address} (prints : Prints p) where
  read_endpoint-text :
      (e old : Option Endpoint)
      → read_endpoint p (elim e [ none ↦ none | some x ↦ some (p.endpoint_text x) ]) old
        ≡ some (or_known e old)
  unfolding read_endpoint
  read_endpoint-text none old = rw (prints.white_space-null) refl
  read_endpoint-text (some e) old =
      rw (prints.white_space-endpoint e, prints.parse_endpoint-text e) refl

  add_addresses-text :
      (xs : List Address) (h : HubInfo Endpoint Address)
      → add_addresses p (map p.address_text xs) h
        ≡ (record h { internal_addresses = h.internal_addresses ++ xs }, true)
  unfolding add_addresses
  add_addresses-text [] h = rw (append-nil h.internal_addresses) refl
  add_addresses-text (a ∷ xs) h = rw (prints.parse_address-text a) (
      add_addresses-text xs (record h { internal_addresses = h.internal_addresses ++ a ∷ [] })
      ∙ rw (append_assoc h.internal_addresses (a ∷ []) xs) refl)

  -- What a hub tells of itself is read back by another one as it was, but for its first name.
  pub of_message-to_message :
      (h : HubInfo Endpoint Address)
      → of_message p (to_message p h) ≡ some (record h { first_name = none })
  unfolding of_message to_message Option.bind
  of_message-to_message h =
      rw
        (
          read_endpoint-text h.external_endpoint none,
          read_endpoint-text h.internal_endpoint none,
          prints.parse_type-text h.connection_type,
          add_addresses-text h.internal_addresses,
        )
        (rw (or_known-none h.external_endpoint, or_known-none h.internal_endpoint) refl)

  update_addresses-text :
      (xs : List Address) (h : HubInfo Endpoint Address)
      → update_addresses p (some (map p.address_text xs)) h
        ≡ (record h { internal_addresses = or_listed xs h.internal_addresses }, some true)
  unfolding update_addresses
  update_addresses-text [] h = refl
  update_addresses-text (a ∷ xs) h =
      rw (add_addresses-text (a ∷ xs) (record h { internal_addresses = [] })) refl

  -- When a hub that is known tells of itself again, its name and its kind of connection are the new ones, an endpoint
  -- and the addresses are the new ones if it told any and the old ones if not, and its first name is gone.
  pub update-to_message :
      (g h : HubInfo Endpoint Address)
      → g.id ≡ h.id
      → update p (to_message p g) h ≡ (
        record h {
          name = g.name;
          connection_type = g.connection_type;
          first_name = none;
          external_endpoint = or_known g.external_endpoint h.external_endpoint;
          internal_endpoint = or_known g.internal_endpoint h.internal_endpoint;
          internal_addresses = or_listed g.internal_addresses h.internal_addresses;
        },
        some true,
      )
  unfolding update update_type update_external update_internal to_message
  update-to_message g h same =
      rw
        (
          (equal_iff h.id g.id).1 (sym same),
          update_type,
          prints.parse_type-text g.connection_type,
          update_external,
          read_endpoint-text g.external_endpoint h.external_endpoint,
          update_internal,
          read_endpoint-text g.internal_endpoint h.internal_endpoint,
        )
        (update_addresses-text g.internal_addresses _)
