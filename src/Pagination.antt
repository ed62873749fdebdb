-- ===== src/Pagination.antt =====
-- internal/app/api/pagination/offset.go: the page and size of a list request, as bytes.
mod Tests
use native.Mathlib.Nat.{mul-le-mul}
use mosona_manager.Decimal.{
  max_int64, is_digit, parse_magnitude, print_fuel, parse_digits, print, parse-print_fuel,
  StartsWithDigit, print_fuel-StartsWithDigit,
}
use mosona_manager.Prelude.{
  Bool, Bool-cases, List, Option, [], arith, if◌then◌else◌, inl, inr, ltb, ltb→lt, none, not, refl,
  some, suc, true, zero, ℕ, ◌%◌, ◌&&◌, ◌*◌, ◌++◌, ◌+◌, ◌-◌, ◌/◌, ◌<◌, ◌∷◌, ◌≡◌, ◌≤◌,
}

abbrev pub default_page : ℕ
default_page = 1

abbrev pub default_page_size : ℕ
default_page_size = 20

abbrev pub max_page : ℕ
max_page = 100_000

abbrev pub max_page_size : ℕ
max_page_size = 1_000

-- the loop that refuses anything but digits
unfoldable pub all_digits : List ℕ → Bool
unfolding is_digit
all_digits [] = true
all_digits (c ∷ cs) = is_digit c && all_digits cs

abbrev pub positive : Option ℕ → Option ℕ
positive none = none
positive (some n) = if ltb n 1 then none else some n

-- `parsePositive`; `none` is `ErrInvalidOffsetPagination`. `strconv.Atoi` of digits alone is their
-- number, or an error where an int cannot hold it.
unfoldable pub parse_positive : List ℕ → ℕ → Option ℕ
unfolding all_digits parse_magnitude
parse_positive [] fallback = some fallback
parse_positive (c ∷ cs) fallback =
    if not (all_digits (c ∷ cs)) then none else positive (parse_magnitude max_int64 (c ∷ cs))

abbrev pub at_most : ℕ → Option ℕ → Option ℕ
at_most limit none = none
at_most limit (some n) = if ltb limit n then none else some n

abbrev pub both : Option ℕ → Option ℕ → Option (ℕ × ℕ)
both (some a) (some b) = some (a, b)
both _ _ = none

-- `ParseOffset`
unfoldable pub parse_offset : List ℕ → List ℕ → Option (ℕ × ℕ)
parse_offset page_value size_value =
    both (at_most max_page (parse_positive page_value default_page))
      (at_most max_page_size (parse_positive size_value default_page_size))

positive_lem :
    (s : List ℕ) (fallback limit n : ℕ)
    → 1 ≤ fallback
    → at_most limit (parse_positive s fallback) ≡ some n
    → (1 ≤ n) × (n ≤ limit)
unfolding parse_positive
positive_lem [] fallback limit n h e = ground arith
positive_lem (c ∷ cs) fallback limit n h e = ground arith

offset_bound : (p s : ℕ) → p ≤ 100_000 → s ≤ 1_000 → (p - 1) * s < 100_000_000
offset_bound p s h k =
    let step : (p - 1) * s ≤ 99_999 * 1_000 = mul-le-mul {n₂ = 99_999} (omega arith) k in
    omega arith

-- Whatever a request says, an accepted page is 1 to 100000 and an accepted size 1 to 1000, so the
-- first row of the page is below a hundred million.
pub parse_offset_bounds :
    (page_value size_value : List ℕ) (page size : ℕ)
    → parse_offset page_value size_value ≡ some (page, size)
    → (1 ≤ page)
      × (page ≤ 100_000)
      × (1 ≤ size)
      × (size ≤ 1_000)
      × ((page - 1) * size < 100_000_000)
unfolding parse_offset
parse_offset_bounds page_value size_value page size h = ground (
  arith,
  positive_lem page_value default_page max_page page,
  positive_lem size_value default_page_size max_page_size size,
  offset_bound page size,
)

all_digits-append :
    (xs ys : List ℕ) → all_digits xs ≡ true → all_digits ys ≡ true → all_digits (xs ++ ys) ≡ true
unfolding all_digits
all_digits-append [] ys h k = k
all_digits-append (x ∷ xs) ys h k = ground (arith, all_digits-append xs ys)

one_digit : (d : ℕ) → d < 10 → all_digits ((b'0' + d) ∷ []) ≡ true
unfolding all_digits
one_digit d h = ground arith

print_fuel-all_digits : (f n : ℕ) → all_digits (print_fuel f n) ≡ true
unfolding print_fuel
print_fuel-all_digits zero n = unfold all_digits in refl
print_fuel-all_digits (suc f) n = elim (Bool-cases (ltb n 10)) [
  | inl e ↦ rw e (one_digit n (ltb→lt n 10 e))
  | inr e ↦ rw e (
      all_digits-append (print_fuel f (n / 10)) ((b'0' + n % 10) ∷ [])
        (print_fuel-all_digits f (n / 10)) (one_digit (n % 10) (omega arith)))
]

parse_positive_of_digits :
    (s : List ℕ) (n fallback : ℕ)
    → StartsWithDigit s
    → all_digits s ≡ true
    → parse_digits 0 s ≡ some n
    → 1 ≤ n
    → n ≤ max_int64
    → parse_positive s fallback ≡ some n
unfolding parse_positive
parse_positive_of_digits [] n fallback d a e l m = absurd d
parse_positive_of_digits (c ∷ cs) n fallback d a e l m = ground arith

parse_positive-print :
    (n fallback : ℕ) → 1 ≤ n → n ≤ max_int64 → parse_positive (print n) fallback ≡ some n
unfolding print
parse_positive-print n fallback l m =
    let f = suc n in
    parse_positive_of_digits (print_fuel f n) n fallback
      (print_fuel-StartsWithDigit f n (omega arith)) (print_fuel-all_digits f n)
      (parse-print_fuel f n (omega arith)) l m

-- A page and a size within the limits, written in decimal, are accepted as they are; and each is
-- its default where the request leaves it out.
pub parse_offset-print :
    (page size : ℕ)
    → 1 ≤ page
    → page ≤ 100_000
    → 1 ≤ size
    → size ≤ 1_000
    → (parse_offset (print page) (print size) ≡ some (page, size))
      × (parse_offset [] (print size) ≡ some (default_page, size))
      × (parse_offset (print page) [] ≡ some (page, default_page_size))
unfolding parse_offset
parse_offset-print page size lp mp ls ms =
    let p = parse_positive-print page default_page lp (omega arith) in
    let s = parse_positive-print size default_page_size ls (omega arith) in
    let p0 : parse_positive [] default_page ≡ some default_page = unfold parse_positive in refl in
    let s0 : parse_positive [] default_page_size ≡ some default_page_size =
      unfold parse_positive in refl in
    (ground (arith, p, s), ground (arith, p0, s), ground (arith, p, s0))
