-- ===== src/Arguments.antt =====
-- src/main.cpp: the checks of the two arguments. An argument is a pointer, `none` if it is NULL, to
-- the bytes before its terminator.
use irc.Base.{
  ℕ, ◌≤◌, ◌≡◌, ◌↔◌, refl, Bool, true, false, not, ◌||◌, Option, none, some, arith, all, ltb, length,
  is_empty, if◌then◌else◌, ◌∷◌, [],
}
use irc.Text.{Text, cr, lf, find_byte}
use irc.Text.Decimal.{is_digit, digits_value, long_max, to_decimal}
use irc.Text.Decimal.RoundTrip.{value-to_decimal}

abbrev pub max_server_password_size : ℕ
max_server_password_size = 504

-- `stream >> parsedValue` for a text of digits: it fails if a `long` does not hold the value.
unfoldable pub read_long : Text → Option ℕ
read_long s = if ltb long_max (digits_value 0 s) then none else some (digits_value 0 s)

unfoldable pub parse_port : Option Text → Option ℕ
parse_port none = none
parse_port (some raw) =
    if is_empty raw then none else if not (all is_digit raw) then none else elim (read_long raw) [
      | none ↦ none
      | some value ↦ if ltb value 1 || ltb 65535 value then none else some value
    ]

unfoldable pub is_valid_password : Option Text → Bool
is_valid_password none = false
is_valid_password (some raw) =
    if is_empty raw
    then false
    else if ltb max_server_password_size (length raw)
    then false
    else elim (find_byte cr raw) [
      | some i ↦ false
      | none ↦ elim (find_byte lf raw) [ some i ↦ false | none ↦ true ]
    ]

-- A port is read exactly from a text of digits, at least one, with a value from 1 to 65535, and
-- it is this value.
pub parse_port_accepts :
    (raw : Text) (port : ℕ)
    → (parse_port (some raw) ≡ some port) ↔ (
        (is_empty raw ≡ false)
        × (all is_digit raw ≡ true)
        × (digits_value 0 raw ≡ port)
        × (1 ≤ port)
        × (port ≤ 65535))
unfolding parse_port read_long
parse_port_accepts raw port = ground arith

some_digit : (s : Text) → 1 ≤ digits_value 0 s → is_empty s ≡ false
unfolding digits_value
some_digit [] h = absurd (omega arith)
some_digit (c ∷ s) h = refl

-- Every port from 1 to 65535 is read back from its digits.
pub parse_port-to_decimal :
    (port : ℕ) → 1 ≤ port → port ≤ 65535 → parse_port (some (to_decimal port)) ≡ some port
parse_port-to_decimal port l h =
    let (digits, value) = value-to_decimal port (omega arith) in
    (parse_port_accepts (to_decimal port) port).1
      (some_digit (to_decimal port) (rw value l), digits, value, l, h)
