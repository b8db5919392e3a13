-- ===== src/Ticker/Paths.antt =====
-- Where a path leads.
use mathlib.Core.List.{append-nil}
use blockcore_gateway.Common.{◌≡◌, refl, sym, ap, ◌∙◌, String, List, [], ◌∷◌, ◌++◌, All, map}
use blockcore_gateway.Js.Text.{Text, text, split, split_from}
use blockcore_gateway.Js.Text.Search.{Lacks, equal_iff, split_from-part}
use blockcore_gateway.Js.Value.{Value, end, field, truthy}
use blockcore_gateway.Ticker.{lookup_text, property, reduce, navigator}

-- A path that is written from its keys, of which there is at least one.
abbrev pub path_of : String → List String → Text
path_of k [] = text k
path_of k (l ∷ ks) = text k ++ b'.' ∷ path_of l ks

-- The value under a list of keys, each in an object of its own.
abbrev pub nest : List String → Value → Value
nest [] v = v
nest (k ∷ ks) v = Value.obj (field k (nest ks v) end)

abbrev IsKey : String → Type 0
IsKey k = Lacks b'.' (text k)

split-path_of :
    (k : String) (ks : List String)
    → IsKey k
    → All IsKey ks
    → split_from (text ".") 0 [] (path_of k ks) ≡ map text (k ∷ ks)
unfolding split_from
split-path_of k [] h a =
    ap (split_from (text ".") 0 []) (sym (append-nil (text k)))
    ∙ split_from-part b'.' [] [] (text k) [] h
split-path_of k (l ∷ ks) h (i, a) =
    split_from-part b'.' [] [] (text k) (b'.' ∷ path_of l ks) h
    ∙ ap (text k ∷◌) (split-path_of l ks i a)

property-nest : (k : String) (v : Value) → property (text k) (Value.obj (field k v end)) ≡ v
unfolding property lookup_text
property-nest k v = rw ((equal_iff (text k) (text k)).1 refl) refl

reduce-nest : (ks : List String) (v : Value) → reduce (nest ks v) (map text ks) ≡ v
unfolding reduce truthy
reduce-nest [] v = refl
reduce-nest (k ∷ ks) v =
    ap (λ w. reduce w (map text ks)) (property-nest k (nest ks v)) ∙ reduce-nest ks v

-- A path of keys without dots leads to the value that stands under these keys.
pub navigator-path_of :
    (k : String) (ks : List String) (v : Value)
    → IsKey k
    → All IsKey ks
    → navigator (nest (k ∷ ks) v) (path_of k ks) ≡ v
unfolding navigator split
navigator-path_of k ks v h a = rw (split-path_of k ks h a) (reduce-nest (k ∷ ks) v)
