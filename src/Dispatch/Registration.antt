-- ===== src/Dispatch/Registration.antt =====
-- What the maps hold when the handlers are registered.
use mathlib.Core.List.{append-nil, append_assoc}
use blockcore_gateway.Common.{
  ℕ, ◌≡◌, ◌≢◌, refl, sym, ap, ◌∙◌, Bool, true, false, Option, none, some, List, [], ◌∷◌, ◌++◌, ◌||◌,
  if◌then◌else◌, ◌==◌, ==_iff, arith, filter_by, Bool-cases, inl, inr,
}
use blockcore_gateway.Dispatch.{
  Handler, Map, MessageMaps, contains, add_command, add_handler, get_map, register, build,
}

-- The handlers that a command has, none where it has no map.
unfoldable handlers_in : Option Map → List Handler
handlers_in none = []
handlers_in (some m) = m.handlers

abbrev for_command : ℕ → Handler → List Handler
for_command c h = if h.command == c then h ∷ [] else []

get_map-add_handler :
    (c : ℕ) (h : Handler) (ms : MessageMaps)
    → contains h.command ms ≡ true
    → handlers_in (get_map c (add_handler h.command h ms))
      ≡ handlers_in (get_map c ms) ++ for_command c h
unfolding handlers_in get_map add_handler contains
get_map-add_handler c h [] e = absurd (ground arith)
get_map-add_handler c h (m ∷ ms) e = ground (
  arith,
  get_map-add_handler c h ms,
  append-nil (handlers_in (get_map c ms)),
  append-nil m.handlers,
)

get_map-add_command :
    (c : ℕ) (h : Handler) (ms : MessageMaps)
    → contains h.command ms ≡ false
    → handlers_in (
        get_map c (
          ms
          ++ record { command = h.command; message_type = h.message_type; handlers = h ∷ [] } ∷ []))
      ≡ handlers_in (get_map c ms) ++ for_command c h
unfolding handlers_in get_map contains
get_map-add_command c h [] e = ground arith
get_map-add_command c h (m ∷ ms) e =
    ground (arith, get_map-add_command c h ms, append-nil m.handlers)

get_map-register :
    (c : ℕ) (h : Handler) (ms : MessageMaps)
    → handlers_in (get_map c (register ms h)) ≡ handlers_in (get_map c ms) ++ for_command c h
unfolding register add_command
get_map-register c h ms = elim (Bool-cases (contains h.command ms)) [
  | inl e ↦ rw (e, register) (get_map-add_handler c h ms e)
  | inr e ↦ rw (e, register) (get_map-add_command c h ms e)
]

-- The registered handlers of a command, in the order of their registration.
abbrev pub handlers_for : ℕ → List Handler → List Handler
handlers_for c = filter_by (λ h. h.command == c)

for_command-append :
    (c : ℕ) (h : Handler) (hs : List Handler)
    → for_command c h ++ handlers_for c hs ≡ handlers_for c (h ∷ hs)
for_command-append c h hs = ground arith

get_map-build_from :
    (c : ℕ) (ms : MessageMaps) (hs : List Handler)
    → handlers_in (get_map c (build ms hs)) ≡ handlers_in (get_map c ms) ++ handlers_for c hs
unfolding build
get_map-build_from c ms [] = sym (append-nil _)
get_map-build_from c ms (h ∷ hs) =
    get_map-build_from c (register ms h) hs
    ∙ ap (◌++ handlers_for c hs) (get_map-register c h ms)
    ∙ append_assoc (handlers_in (get_map c ms)) (for_command c h) (handlers_for c hs)
    ∙ ap (handlers_in (get_map c ms) ++◌) (for_command-append c h hs)

contains-add_handler :
    (c d : ℕ) (h : Handler) (ms : MessageMaps) → contains c (add_handler d h ms) ≡ contains c ms
unfolding contains add_handler
contains-add_handler c d h [] = refl
contains-add_handler c d h (m ∷ ms) = ground (arith, contains-add_handler c d h ms)

contains-append :
    (c : ℕ) (ms : MessageMaps) (m : Map)
    → contains c (ms ++ m ∷ []) ≡ contains c ms || (m.command == c)
unfolding contains
contains-append c [] m = ground arith
contains-append c (n ∷ ms) m = ground (arith, contains-append c ms m)

abbrev any_for : ℕ → List Handler → Bool
any_for c [] = false
any_for c (h ∷ hs) = (h.command == c) || any_for c hs

handlers_for-any_for : (c : ℕ) (hs : List Handler) → any_for c hs ≡ true → handlers_for c hs ≢ []
handlers_for-any_for c [] e n = ground arith
handlers_for-any_for c (h ∷ hs) e n = ground (arith, handlers_for-any_for c hs)

same_command : (c d : ℕ) (ms : MessageMaps) → (d == c) ≡ true → contains d ms ≡ contains c ms
same_command c d ms e = ap (λ x. contains x ms) ((==_iff d c).0 e)

contains-register :
    (c : ℕ) (ms : MessageMaps) (h : Handler)
    → contains c (register ms h) ≡ contains c ms || (h.command == c)
unfolding register add_command
contains-register c ms h = elim (Bool-cases (contains h.command ms)) [
  | inl e ↦ ground (arith, contains-add_handler c h.command h ms, same_command c h.command ms)
  | inr e ↦ rw (e, register) (contains-append c ms _)
]

contains-build_from :
    (c : ℕ) (ms : MessageMaps) (hs : List Handler)
    → contains c (build ms hs) ≡ contains c ms || any_for c hs
unfolding build
contains-build_from c ms [] = ground arith
contains-build_from c ms (h ∷ hs) =
    ground (arith, contains-build_from c (register ms h) hs, contains-register c ms h)

get_map-contains :
    (c : ℕ) (ms : MessageMaps) → contains c ms ≡ true → (m : Map) × (get_map c ms ≡ some m)
unfolding contains get_map
get_map-contains c [] e = absurd (ground arith)
get_map-contains c (m ∷ ms) e = elim (Bool-cases (m.command == c)) [
  | inl f ↦ (m, ground arith)
  | inr f ↦ let (n, g) = get_map-contains c ms (ground arith) in (n, ground arith)
]

get_map-contains-none : (c : ℕ) (ms : MessageMaps) → contains c ms ≡ false → get_map c ms ≡ none
unfolding contains get_map
get_map-contains-none c [] e = refl
get_map-contains-none c (m ∷ ms) e = ground (arith, get_map-contains-none c ms)

-- A command that some handler was registered for has a map, which holds exactly the registered handlers; there is at
-- least one.
pub build-registered :
    (c : ℕ) (hs : List Handler)
    → contains c (build [] hs) ≡ true
    → (m : Map) × (get_map c (build [] hs) ≡ some m)
      × (m.handlers ≡ handlers_for c hs)
      × (handlers_for c hs ≢ [])
unfolding handlers_in get_map contains
build-registered c hs e =
    let (m, g) = get_map-contains c (build [] hs) e in
    (
      m,
      g,
      ap handlers_in (sym g) ∙ get_map-build_from c [] hs,
      handlers_for-any_for c hs (sym (contains-build_from c [] hs) ∙ e),
    )

pub build-unregistered :
    (c : ℕ) (hs : List Handler) → contains c (build [] hs) ≡ false → handlers_for c hs ≡ []
unfolding handlers_in get_map
build-unregistered c hs e =
    sym (get_map-build_from c [] hs) ∙ ap handlers_in (get_map-contains-none c (build [] hs) e)
