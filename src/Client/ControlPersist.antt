-- ===== src/Client/ControlPersist.antt =====
-- `ControlPersist` of crates/sqsh/src/config.rs. A `Duration` is its number of seconds.
pub mod RoundTrip
use squish.Text.{
  Text, text, str_eq, trim, to_ascii_lowercase, is_digit, parse_unsigned, u64_max, to_string,
}
use squish.Prelude.{
  ℕ, suc, ◌*◌, leb, Option, none, some, List, [], ◌∷◌, Bool, true, false, ◌||◌, if◌then◌else◌,
  is_empty, any, take, drop, Result, ok, err, ◌>>=◌, ok_or,
}

pub data ControlPersist : Type 0 where
  disabled forever : ControlPersist
  timeout : (seconds : ℕ) → ControlPersist

pub data PersistError : Type 0 where
  invalid_duration number_error invalid_unit : PersistError

-- `value.find(|c| !c.is_ascii_digit())`, or the length.
unfoldable pub find_non_digit : Text → ℕ
find_non_digit [] = 0
find_non_digit (c ∷ cs) = let rest = find_non_digit cs in if is_digit c then suc rest else 0

-- `u64::saturating_mul`.
abbrev pub saturating_mul : ℕ → ℕ → ℕ
saturating_mul a b = if leb (a * b) u64_max then a * b else u64_max

unfoldable pub unit_seconds : Text → Option ℕ
unit_seconds unit =
    if any (str_eq unit)
      ([] ∷ text "s" ∷ text "sec" ∷ text "secs" ∷ text "second" ∷ text "seconds" ∷ [])
    then some 1
    else if any (str_eq unit)
        (text "m" ∷ text "min" ∷ text "mins" ∷ text "minute" ∷ text "minutes" ∷ [])
    then some 60
    else if any (str_eq unit) (text "h" ∷ text "hr" ∷ text "hrs" ∷ text "hour" ∷ text "hours" ∷ [])
    then some 3600
    else none

unfoldable pub parse_duration : Text → Result PersistError ℕ
unfolding unit_seconds find_non_digit
parse_duration value =
    let digits = take (find_non_digit value) (trim value) in
    let unit = drop (find_non_digit value) (trim value) in
    if is_empty digits
    then err invalid_duration
    else ok_or (parse_unsigned u64_max digits) number_error >>= λ amount.
        (ok_or (unit_seconds unit) invalid_unit >>= λ multiplier.
        ok (saturating_mul amount multiplier))

abbrev pub parse_value : Text → Result PersistError ControlPersist
parse_value value =
    if str_eq value [] || str_eq value (text "yes") || str_eq value (text "true")
    then ok forever
    else if str_eq value (text "no") || str_eq value (text "false")
    then ok disabled
    else parse_duration value >>= λ d. ok (timeout d)

-- `ControlPersist::parse`.
unfoldable pub parse : Option Text → Result PersistError ControlPersist
unfolding parse_duration
parse none = ok disabled
parse (some value) = parse_value (to_ascii_lowercase (trim value))

-- `ControlPersist::as_arg`.
unfoldable pub as_arg : ControlPersist → Option Text
as_arg disabled = none
as_arg forever = some (text "yes")
as_arg (timeout seconds) = some (to_string seconds)

abbrev pub is_enabled : ControlPersist → Bool
is_enabled disabled = false
is_enabled _ = true

abbrev pub idle_timeout : ControlPersist → Option ℕ
idle_timeout (timeout seconds) = some seconds
idle_timeout _ = none
