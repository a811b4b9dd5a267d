-- ===== src/Client/ControlPersist/RoundTrip.antt =====
-- `as_arg` and `parse` of `ControlPersist` (crates/sqsh/src/config.rs).
use squish.Client.ControlPersist.{
  ControlPersist, disabled, forever, timeout, parse, parse_value, parse_duration, as_arg,
  find_non_digit, unit_seconds, saturating_mul,
}
use squish.Text.{
  Text, text, str_eq, trim, trim_start, trim_end, is_whitespace, to_ascii_lowercase, to_lower,
  is_digit, IsDigits, to_string, to_string-IsDigits, to_string-ne-nil, parse_unsigned-to_string,
  u64_max,
}
use squish.Prelude.{ℕ, ◌≡◌, ◌≢◌, ◌≤◌, refl, [], ◌∷◌, false, is_empty, ok, arith, take, drop, ap}

-- A timeout is a `u64` of seconds.
abbrev pub IsPersist : ControlPersist → Type 0
IsPersist (timeout seconds) = seconds ≤ u64_max
IsPersist _ = Unit

trim_end-IsDigits : (s : Text) → IsDigits s → trim_end s ≡ s
unfolding trim_end is_digit is_whitespace
trim_end-IsDigits [] h = refl
trim_end-IsDigits (c ∷ s) h = let same = trim_end-IsDigits s h.1 in ground (arith, same, h.0)

trim-IsDigits : (s : Text) → IsDigits s → trim s ≡ s
unfolding trim trim_start is_digit is_whitespace
trim-IsDigits [] h = refl
trim-IsDigits (c ∷ s) h = let same = trim_end-IsDigits (c ∷ s) h in ground (arith, same, h.0)

lowercase-IsDigits : (s : Text) → IsDigits s → to_ascii_lowercase s ≡ s
unfolding to_ascii_lowercase to_lower is_digit
lowercase-IsDigits [] h = refl
lowercase-IsDigits (c ∷ s) h = let same = lowercase-IsDigits s h.1 in ground (arith, same, h.0)

find_non_digit-IsDigits :
    (s : Text) → IsDigits s → (take (find_non_digit s) s ≡ s) × (drop (find_non_digit s) s ≡ [])
unfolding find_non_digit
find_non_digit-IsDigits [] h = (refl, refl)
find_non_digit-IsDigits (c ∷ s) h =
    let (a, b) = find_non_digit-IsDigits s h.1 in (rw (h.0, a), rw (h.0) b)

is_empty-nonempty : (s : Text) → s ≢ [] → is_empty s ≡ false
is_empty-nonempty [] h = absurd (h refl)
is_empty-nonempty (c ∷ s) h = refl

saturating_mul-one : (n : ℕ) → n ≤ u64_max → saturating_mul n 1 ≡ n
saturating_mul-one n h = ground arith

parse_duration-to_string : (n : ℕ) → n ≤ u64_max → parse_duration (to_string n) ≡ ok n
unfolding parse_duration unit_seconds str_eq
parse_duration-to_string n h =
    let d = to_string-IsDigits n in
    let (all, none_left) = find_non_digit-IsDigits (to_string n) d in
    rw
      (
        trim-IsDigits (to_string n) d,
        all,
        none_left,
        is_empty-nonempty (to_string n) (to_string-ne-nil n),
        parse_unsigned-to_string u64_max n h,
      )
      (ap ok (saturating_mul-one n h))

str_eq-IsDigits :
    (s rest : Text) (c : ℕ) → IsDigits s → is_digit c ≡ false → str_eq s (c ∷ rest) ≡ false
unfolding str_eq is_digit
str_eq-IsDigits [] rest c h k = refl
str_eq-IsDigits (x ∷ s) rest c h k = let d = h.0 in ground arith

str_eq-nil : (s : Text) → s ≢ [] → str_eq s [] ≡ false
unfolding str_eq
str_eq-nil [] h = absurd (h refl)
str_eq-nil (c ∷ s) h = refl

-- A text of digits is none of the words.
parse_value-to_string : (n : ℕ) → n ≤ u64_max → parse_value (to_string n) ≡ ok (timeout n)
unfolding is_digit
parse_value-to_string n h =
    let d = to_string-IsDigits n in
    rw (
      str_eq-nil (to_string n) (to_string-ne-nil n),
      str_eq-IsDigits (to_string n) (text "es") b'y' d refl,
      str_eq-IsDigits (to_string n) (text "rue") b't' d refl,
      str_eq-IsDigits (to_string n) (text "o") b'n' d refl,
      str_eq-IsDigits (to_string n) (text "alse") b'f' d refl,
      parse_duration-to_string n h,
    )

-- What `as_arg` hands to the control master is parsed back, a timeout to the same number of
-- seconds.
pub parse-as_arg : (p : ControlPersist) → IsPersist p → parse (as_arg p) ≡ ok p
unfolding parse as_arg trim trim_start trim_end is_whitespace to_ascii_lowercase to_lower str_eq
parse-as_arg disabled h = refl
parse-as_arg forever h = refl
parse-as_arg (timeout seconds) h =
    let d = to_string-IsDigits seconds in
    rw (trim-IsDigits _ d, lowercase-IsDigits _ d) (parse_value-to_string seconds h)
