-- ===== src/Base/Decimal.antt =====
-- Decimal text: `std::to_string`, `snprintf("%lld")`, and `ParseIntStrict` of src/commands.cpp, which
-- reads with `strtoll`.
use Prim.Native.Nat.{ℕ, zero, suc, ◌+◌, ◌-◌, ◌*◌, ◌/◌, ◌%◌, ◌≤◌, ◌<◌}
use mathlib.Core.Path.{◌≡◌, refl}
use mathlib.Core.Logic.{inl, inr}
use mathlib.Core.Bool.{Bool, true, false, ◌&&◌, ◌||◌}
use mathlib.Core.Option.{Option, none, some}
use mathlib.Core.List.{[], ◌∷◌}
use native.Mathlib.Omega.{arith}
use cpp_inference_engine.Base.Tests.{ltb, leb, ◌==◌, if◌then◌else◌, Bytes, codes, Bool-cases}
use cpp_inference_engine.Base.Lists.{All}
use cpp_inference_engine.Base.Int.{ℤ, pos, negsuc, in_range64}

pub is_digit : ℕ → Bool
is_digit c = leb b'0' c && leb c b'9'

-- the digits of n in front of `acc`; the fuel n + 1 is enough
print_digits : ℕ → ℕ → Bytes → Bytes
print_digits zero n acc = acc
print_digits (suc f) n acc =
    let out = (b'0' + n % 10) ∷ acc in
    let rest = print_digits f (n / 10) out in if ltb n 10 then out else rest

unfoldable pub print_nat : ℕ → Bytes
unfolding print_digits
print_nat n = print_digits (suc n) n []

-- `std::to_string(long long)`
unfoldable pub to_string : ℤ → Bytes
to_string (pos n) = print_nat n
to_string (negsuc n) = b'-' ∷ print_nat (suc n)

-- the value of a text of digits behind the value `n`; `none` at any other byte
unfoldable pub read_digits : ℕ → Bytes → Option ℕ
unfolding is_digit
read_digits n [] = some n
read_digits n (c ∷ s) = if is_digit c then read_digits (n * 10 + (c - b'0')) s else none

-- at least one digit, and digits alone
unfoldable pub read_nat : Bytes → Option ℕ
unfolding read_digits
read_nat [] = none
read_nat (c ∷ s) = read_digits 0 (c ∷ s)

is_space : ℕ → Bool
is_space c = c == 32 || leb 9 c && leb c 13

skip_spaces : Bytes → Bytes
skip_spaces [] = []
skip_spaces (c ∷ s) = let rest = skip_spaces s in if is_space c then rest else c ∷ s

-- what `ERANGE` refuses
in_range : ℤ → Option ℤ
in_range v = if in_range64 v then some v else none

minus : ℕ → ℤ
minus zero = pos 0
minus (suc n) = negsuc n

signed : Bool → Option ℕ → Option ℤ
unfolding in_range minus
signed neg none = none
signed true (some n) = in_range (minus n)
signed false (some n) = in_range (pos n)

after_spaces : Bytes → Option ℤ
unfolding signed
after_spaces [] = none
after_spaces (c ∷ s) =
    if c == b'-'
    then signed true (read_nat s)
    else if c == b'+'
    then signed false (read_nat s)
    else signed false (read_nat (c ∷ s))

-- `strtoll` skips white space and takes a sign; the whole text must be used, and the value must fit.
unfoldable pub parse_int_strict : Bytes → Option ℤ
unfolding after_spaces skip_spaces is_space
parse_int_strict s = after_spaces (skip_spaces s)

parse_samples :
    (parse_int_strict (codes "-12") ≡ some (negsuc 11))
    × (parse_int_strict (codes " +7") ≡ some (pos 7))
    × (parse_int_strict (codes "7 ") ≡ none)
    × (parse_int_strict (codes "9223372036854775808") ≡ none)
    × (to_string (negsuc 119) ≡ codes "-120")
unfolding parse_int_strict to_string print_nat read_nat
parse_samples = (refl, refl, refl, refl, refl)

-- reading the last digit of `n` after the digits before it gives `n`
read_last : (n : ℕ) (out : Bytes) → read_digits (n / 10) ((b'0' + n % 10) ∷ out) ≡ read_digits n out
unfolding read_digits
read_last n out = ground arith

read-print :
    (f n : ℕ) (out : Bytes) → n < f → read_digits 0 (print_digits f n out) ≡ read_digits n out
unfolding print_digits
read-print zero n out h = absurd (omega arith)
read-print (suc f) n out h =
    ground (arith, read_last n out, read-print f (n / 10) ((b'0' + n % 10) ∷ out))

-- a printed number begins with a digit
print-cons :
    (f n : ℕ) (acc : Bytes)
    → n < f
    → (c : ℕ) × (s : Bytes) × (print_digits f n acc ≡ c ∷ s) × (b'0' ≤ c) × (c ≤ b'9')
unfolding print_digits
print-cons zero n acc h = absurd (omega arith)
print-cons (suc f) n acc h =
    let out = (b'0' + n % 10) ∷ acc in
    elim (Bool-cases (ltb n 10)) [
      | inl small ↦ (b'0' + n % 10, acc, ground arith, omega arith, omega arith)
      | inr big ↦
          let (c, s, e, lo, hi) = print-cons f (n / 10) out (ground arith) in
          (c, s, ground arith, lo, hi)
    ]

pub print_nat-cons :
    (n : ℕ) → (c : ℕ) × (s : Bytes) × (print_nat n ≡ c ∷ s) × (b'0' ≤ c) × (c ≤ b'9')
unfolding print_nat
print_nat-cons n = print-cons (suc n) n [] (omega arith)

print-digits :
    (f n : ℕ) (acc : Bytes)
    → All (λ c. (b'0' ≤ c) × (c ≤ b'9')) acc
    → All (λ c. (b'0' ≤ c) × (c ≤ b'9')) (print_digits f n acc)
unfolding print_digits
print-digits zero n acc h = h
print-digits (suc f) n acc h = elim (Bool-cases (ltb n 10)) [
  | inl small ↦ rw small ((omega arith, omega arith), h)
  | inr big ↦
      rw big (print-digits f (n / 10) ((b'0' + n % 10) ∷ acc) ((omega arith, omega arith), h))
]

-- a printed number has digits alone
pub print_nat-digits : (n : ℕ) → All (λ c. (b'0' ≤ c) × (c ≤ b'9')) (print_nat n)
unfolding print_nat
print_nat-digits n = print-digits (suc n) n [] tt

read-print_nat : (n : ℕ) → read_digits 0 (print_nat n) ≡ some n
unfolding print_nat read_digits
read-print_nat n = read-print (suc n) n [] (omega arith)

read_nat-cons : (c : ℕ) (s : Bytes) → read_nat (c ∷ s) ≡ read_digits 0 (c ∷ s)
unfolding read_nat
read_nat-cons c s = refl

-- A number is read back from its decimal print.
pub read_nat-print_nat : (n : ℕ) → read_nat (print_nat n) ≡ some n
read_nat-print_nat n =
    let (c, s, e, lo, hi) = print_nat-cons n in cc (e, read_nat-cons c s, read-print_nat n)

after_spaces-digit :
    (c : ℕ) (s : Bytes)
    → b'0' ≤ c
    → c ≤ b'9'
    → parse_int_strict (c ∷ s) ≡ signed false (read_nat (c ∷ s))
unfolding parse_int_strict
after_spaces-digit c s lo hi = ground arith

after_spaces-minus : (s : Bytes) → parse_int_strict (b'-' ∷ s) ≡ signed true (read_nat s)
unfolding parse_int_strict
after_spaces-minus s = refl

-- `ParseIntStrict` reads back every `long long` from what `std::to_string` prints of it.
pub parse-to_string : (a : ℤ) → in_range64 a ≡ true → parse_int_strict (to_string a) ≡ some a
unfolding to_string signed
parse-to_string (pos n) h =
    let (c, s, e, lo, hi) = print_nat-cons n in
    ground (arith, e, after_spaces-digit c s lo hi, read_nat-print_nat n)
parse-to_string (negsuc n) h =
    ground (arith, after_spaces-minus (print_nat (suc n)), read_nat-print_nat (suc n))

signed_range : (neg : Bool) (o : Option ℕ) (a : ℤ) → signed neg o ≡ some a → in_range64 a ≡ true
unfolding signed
signed_range neg none a h = cc
signed_range true (some zero) a h = ground arith
signed_range true (some (suc n)) a h = ground arith
signed_range false (some n) a h = ground arith

after_spaces_range : (s : Bytes) (a : ℤ) → after_spaces s ≡ some a → in_range64 a ≡ true
unfolding after_spaces
after_spaces_range [] a h = cc
after_spaces_range (c ∷ s) a h = ground (
  arith,
  signed_range true (read_nat s) a,
  signed_range false (read_nat s) a,
  signed_range false (read_nat (c ∷ s)) a,
)

-- What `ParseIntStrict` accepts is a `long long`.
pub parse_int_strict_range : (s : Bytes) (a : ℤ) → parse_int_strict s ≡ some a → in_range64 a ≡ true
unfolding parse_int_strict
parse_int_strict_range s a h = after_spaces_range (skip_spaces s) a h
