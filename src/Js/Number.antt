-- ===== src/Js/Number.antt =====
-- Natural numbers as decimal texts: `'' + n`, and `parseInt`.
use blockcore_gateway.Common.{
  ℕ, zero, suc, ◌+◌, ◌-◌, ◌*◌, ◌/◌, ◌%◌, ◌≤◌, ◌<◌, ◌≡◌, refl, Bool, true, false, Option, none, some,
  [], ◌∷◌, ◌++◌, ◌&&◌, ◌||◌, if◌then◌else◌, ltb, leb, ltb→lt, ◌==◌, arith, All, All-append,
  Bool-cases, inl, inr, ap, ◌∙◌,
}
use blockcore_gateway.Js.Text.{Text}
use blockcore_gateway.Js.Value.{ℤ, pos, negsuc}

-- The fuel is one more than the number, which has fewer digits than that.
decimal_from : ℕ → ℕ → Text
decimal_from zero n = []
decimal_from (suc f) n =
    let rest = decimal_from f (n / 10) in
    if ltb n 10 then (48 + n) ∷ [] else rest ++ (48 + n % 10) ∷ []

unfoldable pub decimal : ℕ → Text
unfolding decimal_from
decimal n = decimal_from (suc n) n

-- A digit in the given base, 10 or 16.
unfoldable pub digit : ℕ → ℕ → Option ℕ
digit base c =
    if leb b'0' c && leb c b'9'
    then some (c - 48)
    else if (base == 16) && (leb b'a' c && leb c b'f')
    then some (c - 87)
    else if (base == 16) && (leb b'A' c && leb c b'F')
    then some (c - 55)
    else none

abbrev shift : ℕ → Option ℕ → ℕ
shift base none = 0
shift base (some a) = a * base

-- The digits at the front, read on to `acc`; `none` where there are none at all.
unfoldable pub digits_from : ℕ → Option ℕ → Text → Option ℕ
digits_from base acc [] = acc
digits_from base acc (c ∷ s) = elim (digit base c) [
  | none ↦ acc
  | some d ↦ digits_from base (some (shift base acc + d)) s
]

-- The white space of ASCII that `parseInt` skips.
abbrev is_space : ℕ → Bool
is_space c = (c == 32) || (leb 9 c && leb c 13)

abbrev skip_spaces : Text → Text
skip_spaces [] = []
skip_spaces (c ∷ s) = let rest = skip_spaces s in elim (is_space c) [ true ↦ rest | false ↦ c ∷ s ]

-- Behind the sign: `0x` begins a hexadecimal number.
unfoldable pub unsigned : Text → Option ℕ
unsigned [] = none
unsigned (c ∷ []) = digits_from 10 none (c ∷ [])
unsigned (c ∷ d ∷ s) =
    if (c == b'0') && ((d == b'x') || (d == b'X'))
    then digits_from 16 none s
    else digits_from 10 none (c ∷ d ∷ s)

abbrev pub negate : ℕ → ℤ
negate zero = pos zero
negate (suc n) = negsuc n

abbrev negated : Option ℕ → Option ℤ
negated none = none
negated (some n) = some (negate n)

abbrev positive : Option ℕ → Option ℤ
positive none = none
positive (some n) = some (pos n)

abbrev signed : Text → Option ℤ
signed [] = none
signed (c ∷ s) =
    if c == b'-'
    then negated (unsigned s)
    else if c == b'+'
    then positive (unsigned s)
    else positive (unsigned (c ∷ s))

-- `parseInt(s)` before the result is rounded to a double; `none` is NaN.
unfoldable pub parse_int : Text → Option ℤ
unfolding unsigned
parse_int s = signed (skip_spaces s)

-- The characters of a decimal.
abbrev IsDigit : ℕ → Type 0
IsDigit c = (48 ≤ c) × (c ≤ 57)

digit-IsDigit : (c : ℕ) → IsDigit c → digit 10 c ≡ some (c - 48)
unfolding digit
digit-IsDigit c h = ground arith

digit-lt : (d : ℕ) → d < 10 → digit 10 (48 + d) ≡ some d
unfolding digit
digit-lt d h = ground arith

digits_from-append :
    (acc : Option ℕ) (s : Text) (d : ℕ)
    → All IsDigit s
    → d < 10
    → digits_from 10 acc (s ++ (48 + d) ∷ []) ≡ some (shift 10 (digits_from 10 acc s) + d)
unfolding digits_from
digits_from-append acc [] d h lt = ground (arith, digit-lt d lt)
digits_from-append acc (c ∷ s) d (p, h) lt =
    ground (arith, digit-IsDigit c p, digits_from-append (some (shift 10 acc + (c - 48))) s d h lt)

decimal_from-IsDigit : (f n : ℕ) → All IsDigit (decimal_from f n)
unfolding decimal_from
decimal_from-IsDigit zero n = tt
decimal_from-IsDigit (suc f) n = elim (Bool-cases (ltb n 10)) [
  | inl e ↦ rw e (ground arith)
  | inr e ↦ rw e (
      All-append IsDigit (decimal_from f (n / 10)) _ (decimal_from-IsDigit f (n / 10))
        (omega arith))
]

digits_from-decimal_from : (f n : ℕ) → n < f → digits_from 10 none (decimal_from f n) ≡ some n
unfolding decimal_from digits_from
digits_from-decimal_from zero n h = absurd (omega arith)
digits_from-decimal_from (suc f) n h = elim (Bool-cases (ltb n 10)) [
  | inl e ↦ rw e (digits_from-append none [] n tt (ltb→lt n 10 e) ∙ ap some (omega arith))
  | inr e ↦ rw e (
      digits_from-append none (decimal_from f (n / 10)) (n % 10) (decimal_from-IsDigit f (n / 10))
        (omega arith)
      ∙ ap (λ o. some (shift 10 o + n % 10)) (digits_from-decimal_from f (n / 10) (ground arith))
      ∙ ap some (omega arith))
]

parse_int-IsDigit : (t : Text) → All IsDigit t → parse_int t ≡ positive (digits_from 10 none t)
unfolding parse_int digits_from
parse_int-IsDigit [] h = refl
parse_int-IsDigit (c ∷ []) (p, h) = ground arith
parse_int-IsDigit (c ∷ d ∷ s) (p, (q, h)) = ground arith

-- `parseInt` reads a number as it is printed.
pub parse_int-decimal : (n : ℕ) → parse_int (decimal n) ≡ some (pos n)
unfolding decimal
parse_int-decimal n =
    parse_int-IsDigit _ (decimal_from-IsDigit (suc n) n)
    ∙ ap positive (digits_from-decimal_from (suc n) n (omega arith))
