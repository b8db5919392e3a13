-- ===== src/Dispatch/Types.antt =====
-- The type that a command's messages are read as.
use blockcore_gateway.Common.{
  ℕ, ◌≡◌, refl, ap, ◌∙◌, String, true, Option, none, some, List, [], ◌∷◌, ◌++◌, if◌then◌else◌, ◌==◌,
  arith, Bool-cases, inl, inr,
}
use blockcore_gateway.Dispatch.{
  Handler, Map, MessageMaps, contains, add_command, add_handler, get_map, get_message_type,
  register, build,
}
use blockcore_gateway.Dispatch.Registration.{handlers_for}

abbrev type_in : Option Map → Option String
type_in none = none
type_in (some m) = some m.message_type

get_message_type-type_in :
    (c : ℕ) (ms : MessageMaps) → get_message_type c ms ≡ type_in (get_map c ms)
unfolding get_message_type contains get_map
get_message_type-type_in c [] = refl
get_message_type-type_in c (m ∷ ms) = ground (arith, get_message_type-type_in c ms)

abbrev pub first_type : List Handler → Option String
first_type [] = none
first_type (h ∷ hs) = some h.message_type

abbrev or_else : Option String → Option String → Option String
or_else none t = t
or_else (some s) t = some s

abbrev type_for : ℕ → Handler → Option String
type_for c h = if h.command == c then some h.message_type else none

type_in-add_handler :
    (c : ℕ) (h : Handler) (ms : MessageMaps)
    → contains h.command ms ≡ true
    → type_in (get_map c (add_handler h.command h ms))
      ≡ or_else (type_in (get_map c ms)) (type_for c h)
unfolding get_map add_handler contains
type_in-add_handler c h [] e = absurd (ground arith)
type_in-add_handler c h (m ∷ ms) e = ground (arith, type_in-add_handler c h ms)

type_in-append :
    (c : ℕ) (m : Map) (ms : MessageMaps)
    → type_in (get_map c (ms ++ m ∷ []))
      ≡ or_else (type_in (get_map c ms)) (if m.command == c then some m.message_type else none)
unfolding get_map
type_in-append c m [] = ground arith
type_in-append c m (n ∷ ms) = ground (arith, type_in-append c m ms)

type_in-register :
    (c : ℕ) (h : Handler) (ms : MessageMaps)
    → type_in (get_map c (register ms h)) ≡ or_else (type_in (get_map c ms)) (type_for c h)
unfolding register add_command
type_in-register c h ms = elim (Bool-cases (contains h.command ms)) [
  | inl e ↦ rw (e, register) (type_in-add_handler c h ms e)
  | inr e ↦ rw (e, register) (type_in-append c _ ms)
]

or_else-first_type :
    (o : Option String) (c : ℕ) (h : Handler) (hs : List Handler)
    → or_else (or_else o (type_for c h)) (first_type (handlers_for c hs))
      ≡ or_else o (first_type (handlers_for c (h ∷ hs)))
or_else-first_type o c h hs = ground arith

type_in-build :
    (c : ℕ) (ms : MessageMaps) (hs : List Handler)
    → type_in (get_map c (build ms hs))
      ≡ or_else (type_in (get_map c ms)) (first_type (handlers_for c hs))
unfolding build
type_in-build c ms [] = ground arith
type_in-build c ms (h ∷ hs) =
    type_in-build c (register ms h) hs
    ∙ ap (λ o. or_else o (first_type (handlers_for c hs))) (type_in-register c h ms)
    ∙ or_else-first_type (type_in (get_map c ms)) c h hs

-- The messages of a command are read as the type of the handler that was registered first for it, whatever the others
-- expect; without any handler it is an error.
pub get_message_type-build :
    (c : ℕ) (hs : List Handler) → get_message_type c (build [] hs) ≡ first_type (handlers_for c hs)
unfolding get_map
get_message_type-build c hs = get_message_type-type_in c (build [] hs) ∙ type_in-build c [] hs
