-- ===== src/Js/Text.antt =====
-- Strings that the client takes apart or builds: lists of UTF-16 code units, with the methods of
-- `String.prototype` that it calls on them.
pub mod Search
use Prim.Native.Char.{code}
use Prim.Native.String
use blockcore_gateway.Common.{
  ℕ, zero, suc, ◌+◌, ◌-◌, String, Bool, true, false, Option, none, some, List, [], ◌∷◌, ◌++◌, ◌&&◌,
  not, if◌then◌else◌, ltb, leb, ◌==◌, length, take, drop, map,
}
use mathlib.Core.Option

abbrev pub Text : Type 0
Text = List ℕ

-- A literal of the source.
abbrev pub text : String → Text
text String.[] = []
text (String.◌∷◌ c s) = code c ∷ text s

abbrev pub equal : Text → Text → Bool
equal [] [] = true
equal [] (y ∷ ys) = false
equal (x ∷ xs) [] = false
equal (x ∷ xs) (y ∷ ys) = (x == y) && equal xs ys

abbrev pub starts_with : Text → Text → Bool
starts_with [] s = true
starts_with (p ∷ ps) [] = false
starts_with (p ∷ ps) (c ∷ s) = (p == c) && starts_with ps s

-- `s.indexOf(p)`; `none` is -1.
unfoldable pub index_of : Text → Text → Option ℕ
index_of p [] = if starts_with p [] then some 0 else none
index_of p (c ∷ s) = if starts_with p (c ∷ s) then some 0 else Option.map suc (index_of p s)

-- `s.indexOf(p) + n`
abbrev pub plus : Option ℕ → ℕ → ℕ
plus none n = n - 1
plus (some i) n = i + n

-- `s.substring(a)`, and `s.substring(a, b)`, which swaps its arguments where they are out of order.
abbrev pub substring_from : ℕ → Text → Text
substring_from a s = drop a s

abbrev pub substring : ℕ → ℕ → Text → Text
substring a b s = if leb a b then drop a (take b s) else drop b (take a s)

-- `s.replace(p, r)` for strings `p` and `r`: the first occurrence, if there is one.
unfoldable pub replace : Text → Text → Text → Text
replace p r s = elim (index_of p s) [ none ↦ s | some i ↦ take i s ++ r ++ drop (i + length p) s ]

-- `s.endsWith(p)`
abbrev pub ends_with : Text → Text → Bool
ends_with p s = leb (length p) (length s) && equal (drop (length s - length p) s) p

-- The loop of `s.split(sep)` for a separator that is not empty: `skip` counts the code units of a
-- separator that are still to be passed over, `cur` is the part read so far.
unfoldable pub split_from : Text → ℕ → Text → Text → List Text
split_from sep skip cur [] = cur ∷ []
split_from sep (suc skip) cur (c ∷ s) = split_from sep skip cur s
split_from sep zero cur (c ∷ s) = elim (starts_with sep (c ∷ s)) [
  | true ↦ cur ∷ split_from sep (length sep - 1) [] s
  | false ↦ split_from sep zero (cur ++ c ∷ []) s
]

unfoldable pub split : Text → Text → List Text
split sep s = split_from sep 0 [] s

-- `s.toUpperCase()` and `s.toLowerCase()` on ASCII.
abbrev pub upper : ℕ → ℕ
upper c = if leb b'a' c && leb c b'z' then c - 32 else c

abbrev pub to_upper_case : Text → Text
to_upper_case = map upper
