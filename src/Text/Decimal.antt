-- ===== src/Text/Decimal.antt =====
-- Decimal numbers: `isdigit`, `std::atoi`, and a `size_t` written to a stream.
pub mod RoundTrip
use irc.Base.{ℕ, zero, suc, ◌+◌, ◌-◌, ◌*◌, Bool, ◌&&◌, [], ◌∷◌, ltb, leb, if◌then◌else◌}
use Prim.Native.Nat.{◌/◌, ◌%◌}
use irc.Text.{Text}

unfoldable pub is_digit : ℕ → Bool
is_digit c = leb b'0' c && leb c b'9'

-- The value of a run of digits, `acc` being that of the digits before.
unfoldable pub digits_value : ℕ → Text → ℕ
digits_value acc [] = acc
digits_value acc (c ∷ cs) = digits_value (acc * 10 + (c - b'0')) cs

-- `LONG_MAX`, and the bounds of a 32 bit `int`.
abbrev pub long_max : ℕ
long_max = 9223372036854775807

abbrev pub int_mod : ℕ
int_mod = 4294967296

abbrev pub int_limit : ℕ
int_limit = 2147483648

-- `std::atoi` of a text of digits, as the bits of the `int`: the value is that of `strtol`, which
-- stops at LONG_MAX, cut to 32 bits. (The standard leaves a value out of range undefined.)
unfoldable pub atoi : Text → ℕ
unfolding digits_value
atoi s = (if ltb long_max (digits_value 0 s) then long_max else digits_value 0 s) % int_mod

-- The `int` with these bits is greater than 0.
abbrev pub is_positive_int : ℕ → Bool
is_positive_int bits = ltb 0 bits && ltb bits int_limit

-- The digits of a number, in front of `acc`; a `size_t` has at most 20.
unfoldable pub decimal_from : ℕ → ℕ → Text → Text
decimal_from zero n acc = acc
decimal_from (suc fuel) n acc =
    let rest = decimal_from fuel (n / 10) ((b'0' + n % 10) ∷ acc) in
    if ltb n 10 then (b'0' + n) ∷ acc else rest

unfoldable pub to_decimal : ℕ → Text
unfolding decimal_from
to_decimal n = decimal_from 20 n []
