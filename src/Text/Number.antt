-- ===== src/Text/Number.antt =====
-- Unsigned decimal numbers: `str::parse` into `u16` and `u64`, and `to_string`.
use squish.Prelude.{
  ℕ, zero, suc, ◌+◌, ◌-◌, ◌*◌, ◌/◌, ◌%◌, ◌≤◌, ◌<◌, ◌≡◌, refl, Bool, true, false, ◌&&◌, Option, none,
  some, [], ◌∷◌, ◌++◌, arith, ltb, leb, ◌==◌, if◌then◌else◌, is_empty, Bool-cases, inl, inr,
  append_assoc, append-nil, All, All-append, append-ne-nil, ◌∙◌, ◌≢◌,
}
use squish.Text.Chars.{Text, contains}

abbrev pub u16_max : ℕ
u16_max = 65535

abbrev pub u64_max : ℕ
u64_max = 18446744073709551615

-- `char::is_ascii_digit`.
unfoldable pub is_digit : ℕ → Bool
is_digit c = leb b'0' c && leb c b'9'

-- The digits of a number, by checked multiplication and addition up to `max`.
unfoldable pub parse_digits : ℕ → ℕ → Text → Option ℕ
unfolding is_digit
parse_digits max acc [] = some acc
parse_digits max acc (c ∷ cs) =
    let value = acc * 10 + (c - b'0') in
    if is_digit c && leb value max then parse_digits max value cs else none

-- `from_str_radix` at an unsigned type: one `+` is skipped, and no digit is an error.
unfoldable pub parse_unsigned : ℕ → Text → Option ℕ
unfolding parse_digits
parse_unsigned max [] = none
parse_unsigned max (c ∷ cs) =
    if c == b'+'
    then if is_empty cs then none else parse_digits max 0 cs
    else parse_digits max 0 (c ∷ cs)

-- The digits of `n`; the fuel `suc n` suffices.
unfoldable pub digits_fuel : ℕ → ℕ → Text
digits_fuel zero n = []
digits_fuel (suc f) n =
    let front = digits_fuel f (n / 10) in
    if ltb n 10 then (b'0' + n) ∷ [] else front ++ (b'0' + n % 10) ∷ []

-- `u16::to_string` and `u64::to_string`.
unfoldable pub to_string : ℕ → Text
unfolding digits_fuel
to_string n = digits_fuel (suc n) n

digit_step :
    (max q r n : ℕ) (rest : Text)
    → q * 10 + r ≡ n
    → r < 10
    → n ≤ max
    → parse_digits max q ((b'0' + r) ∷ rest) ≡ parse_digits max n rest
unfolding parse_digits
digit_step max q r n rest e h k =
    let v : q * 10 + (b'0' + r - b'0') ≡ n = omega arith in rw v (ground arith)

parse_digits-digits_fuel :
    (max f n : ℕ) (rest : Text)
    → n < f
    → n ≤ max
    → parse_digits max 0 (digits_fuel f n ++ rest) ≡ parse_digits max n rest
unfolding digits_fuel parse_digits
parse_digits-digits_fuel max zero n rest h k = absurd (omega arith)
parse_digits-digits_fuel max (suc f) n rest h k = elim (Bool-cases (ltb n 10)) [
  | inl small ↦ ground arith
  | inr big ↦
      rw (big, append_assoc)
        (parse_digits-digits_fuel max f (n / 10) ((b'0' + n % 10) ∷ rest) (ground arith)
            (omega arith)
          ∙ digit_step max (n / 10) (n % 10) n rest (omega arith) (omega arith) k)
]

-- What `to_string` writes.
abbrev pub IsDigits : Text → Type 0
IsDigits = All (λ c. is_digit c ≡ true)

digits_fuel-IsDigits : (f n : ℕ) → IsDigits (digits_fuel f n)
unfolding digits_fuel is_digit
digits_fuel-IsDigits zero n = tt
digits_fuel-IsDigits (suc f) n = elim (Bool-cases (ltb n 10)) [
  | inl small ↦ rw small (ground arith, tt)
  | inr big ↦
      rw big (
        All-append _ (digits_fuel f (n / 10)) _ (digits_fuel-IsDigits f (n / 10))
          (ground arith, tt))
]

pub to_string-IsDigits : (n : ℕ) → IsDigits (to_string n)
unfolding to_string
to_string-IsDigits n = digits_fuel-IsDigits (suc n) n

digits_fuel-ne-nil : (f n : ℕ) → 0 < f → digits_fuel f n ≢ []
unfolding digits_fuel
digits_fuel-ne-nil zero n h = absurd (omega arith)
digits_fuel-ne-nil (suc f) n h =
    ground (arith, append-ne-nil (digits_fuel f (n / 10)) (b'0' + n % 10))

pub to_string-ne-nil : (n : ℕ) → to_string n ≢ []
unfolding to_string
to_string-ne-nil n = digits_fuel-ne-nil (suc n) n (omega arith)

-- A text of digits holds no other character.
pub IsDigits-contains : (c : ℕ) (s : Text) → is_digit c ≡ false → IsDigits s → contains c s ≡ false
unfolding contains is_digit
IsDigits-contains c [] h d = refl
IsDigits-contains c (x ∷ s) h d = ground (arith, IsDigits-contains c s h d.1)

-- On digits `parse` reads no sign.
pub parse_unsigned-IsDigits :
    (max : ℕ) (s : Text) → IsDigits s → s ≢ [] → parse_unsigned max s ≡ parse_digits max 0 s
unfolding parse_unsigned is_digit
parse_unsigned-IsDigits max [] d h = absurd (h refl)
parse_unsigned-IsDigits max (c ∷ s) d h = ground (arith, d.0)

pub parse_unsigned-to_string : (max n : ℕ) → n ≤ max → parse_unsigned max (to_string n) ≡ some n
unfolding to_string parse_digits
parse_unsigned-to_string max n h =
    parse_unsigned-IsDigits max (to_string n) (to_string-IsDigits n) (to_string-ne-nil n)
    ∙ rw (append-nil) at (parse_digits-digits_fuel max (suc n) n [] (omega arith) h)

parse_digits-le :
    (max acc : ℕ) (s : Text) {n : ℕ} → acc ≤ max → parse_digits max acc s ≡ some n → n ≤ max
unfolding parse_digits
parse_digits-le max acc [] h e = ground arith
parse_digits-le max acc (c ∷ s) {n} h e =
    ground (arith, parse_digits-le max (acc * 10 + (c - b'0')) s {n = n})

pub parse_unsigned-le : (max : ℕ) (s : Text) {n : ℕ} → parse_unsigned max s ≡ some n → n ≤ max
unfolding parse_unsigned
parse_unsigned-le max [] h = cc
parse_unsigned-le max (c ∷ s) {n} h =
    ground (arith, parse_digits-le max 0 s {n = n}, parse_digits-le max 0 (c ∷ s) {n = n})
