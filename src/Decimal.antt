-- ===== src/Decimal.antt =====
-- Decimal texts as bytes, the way `strconv` reads and `fmt` prints them: `strconv.ParseInt` and
-- `strconv.Atoi` at 64 bits, and the verb `%d`, for a value that is not negative.
use mosona_manager.Prelude.{
  Bool, Bool-cases, List, Option, [], ap, arith, if◌then◌else◌, inl, inr, leb, ltb, ltb→lt, none,
  some, suc, true, zero, ℕ, ◌%◌, ◌&&◌, ◌*◌, ◌++◌, ◌+◌, ◌-◌, ◌/◌, ◌<◌, ◌==◌, ◌∙◌, ◌∷◌, ◌≡◌, ◌≤◌,
}

abbrev pub max_int64 : ℕ
max_int64 = 9_223_372_036_854_775_807

unfoldable pub is_digit : ℕ → Bool
is_digit c = leb b'0' c && leb c b'9'

-- the digits that remain, after those that make up `acc`
unfoldable pub parse_digits : ℕ → List ℕ → Option ℕ
unfolding is_digit
parse_digits acc [] = some acc
parse_digits acc (c ∷ cs) =
    let rest = parse_digits (acc * 10 + (c - b'0')) cs in if is_digit c then rest else none

abbrev pub within : ℕ → Option ℕ → Option ℕ
within limit none = none
within limit (some n) = if leb n limit then some n else none

-- an integer that was read: its sign and its magnitude
pub data Signed : Type 0 where
  plus : ℕ → Signed
  minus : ℕ → Signed

abbrev pub signed : (ℕ → Signed) → Option ℕ → Option Signed
signed f none = none
signed f (some n) = some (f n)

-- no digits at all are a syntax error
unfoldable pub parse_magnitude : ℕ → List ℕ → Option ℕ
unfolding parse_digits
parse_magnitude limit [] = none
parse_magnitude limit (c ∷ cs) = within limit (parse_digits 0 (c ∷ cs))

-- `strconv.ParseInt(s, 10, 64)`, with its syntax and range errors as `none`
unfoldable pub parse_int : List ℕ → Option Signed
unfolding parse_magnitude
parse_int [] = none
parse_int (c ∷ cs) =
    if c == b'-'
    then signed minus (parse_magnitude (max_int64 + 1) cs)
    else if c == b'+'
    then signed plus (parse_magnitude max_int64 cs)
    else signed plus (parse_magnitude max_int64 (c ∷ cs))

-- `%d`, with fuel for the number of digits
unfoldable pub print_fuel : ℕ → ℕ → List ℕ
print_fuel zero n = []
print_fuel (suc f) n =
    let more = print_fuel f (n / 10) in
    if ltb n 10 then (b'0' + n) ∷ [] else more ++ (b'0' + n % 10) ∷ []

unfoldable pub print : ℕ → List ℕ
unfolding print_fuel
print n = print_fuel (suc n) n

parse_digits_snoc :
    (acc : ℕ) (xs : List ℕ) (v d : ℕ)
    → parse_digits acc xs ≡ some v
    → d < 10
    → parse_digits acc (xs ++ (b'0' + d) ∷ []) ≡ some (v * 10 + d)
unfolding parse_digits
parse_digits_snoc acc [] v d h k = ground arith
parse_digits_snoc acc (x ∷ xs) v d h k =
    ground (arith, parse_digits_snoc (acc * 10 + (x - b'0')) xs v d)

-- enough fuel prints all digits
pub parse-print_fuel : (f n : ℕ) → n < f → parse_digits 0 (print_fuel f n) ≡ some n
unfolding print_fuel
parse-print_fuel zero n h = absurd (omega arith)
parse-print_fuel (suc f) n h = elim (Bool-cases (ltb n 10)) [
  | inl e ↦ rw e (unfold parse_digits in ground arith)
  | inr e ↦ rw e (
      parse_digits_snoc 0 (print_fuel f (n / 10)) (n / 10) (n % 10)
        (parse-print_fuel f (n / 10) (ground arith)) (omega arith)
      ∙ ap some (omega arith))
]

-- the print starts with a digit
abbrev pub StartsWithDigit : List ℕ → Type 0
StartsWithDigit [] = ⊥
StartsWithDigit (c ∷ cs) = is_digit c ≡ true

StartsWithDigit-append : (xs ys : List ℕ) → StartsWithDigit xs → StartsWithDigit (xs ++ ys)
StartsWithDigit-append [] ys h = absurd h
StartsWithDigit-append (x ∷ xs) ys h = h

digit_lem : (d : ℕ) → d < 10 → is_digit (b'0' + d) ≡ true
unfolding is_digit
digit_lem d h = ground arith

pub print_fuel-StartsWithDigit : (f n : ℕ) → n < f → StartsWithDigit (print_fuel f n)
unfolding print_fuel
print_fuel-StartsWithDigit zero n h = absurd (omega arith)
print_fuel-StartsWithDigit (suc f) n h = elim (Bool-cases (ltb n 10)) [
  | inl e ↦ rw e (digit_lem n (ltb→lt n 10 e))
  | inr e ↦ rw e (
      StartsWithDigit-append (print_fuel f (n / 10)) ((b'0' + n % 10) ∷ [])
        (print_fuel-StartsWithDigit f (n / 10) (ground arith)))
]

parse_int_of_digits :
    (s : List ℕ) (n : ℕ)
    → StartsWithDigit s
    → n ≤ max_int64
    → parse_digits 0 s ≡ some n
    → parse_int s ≡ some (plus n)
unfolding parse_int is_digit
parse_int_of_digits [] n d h e = absurd d
parse_int_of_digits (c ∷ cs) n d h e = ground arith

pub parse_digits-print : (n : ℕ) → parse_digits 0 (print n) ≡ some n
unfolding print
parse_digits-print n = parse-print_fuel (suc n) n (omega arith)

-- What `%d` prints, `ParseInt` reads back, for every number that an int64 holds.
pub parse_int-print : (n : ℕ) → n ≤ max_int64 → parse_int (print n) ≡ some (plus n)
unfolding print
parse_int-print n h =
    parse_int_of_digits (print_fuel (suc n) n) n
      (print_fuel-StartsWithDigit (suc n) n (omega arith)) h
      (parse-print_fuel (suc n) n (omega arith))
