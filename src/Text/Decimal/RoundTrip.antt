-- ===== src/Text/Decimal/RoundTrip.antt =====
-- Decimal digits and their value.
use Prim.Native.Nat.{◌/◌, ◌%◌}
use irc.Base.{
  ℕ, zero, suc, ◌+◌, ◌*◌, ◌<◌, ◌≡◌, refl, ap, ◌∙◌, true, [], ◌∷◌, arith, all, ltb, Bool-cases, inl,
  inr,
}
use irc.Text.{Text}
use irc.Text.Decimal.{
  is_digit, digits_value, decimal_from, to_decimal, atoi, int_limit, is_positive_int,
}

-- The numbers of at most so many digits are below it.
abbrev pub ten_to : ℕ → ℕ
ten_to zero = 1
ten_to (suc k) = 10 * ten_to k

value-decimal_from :
    (fuel n : ℕ) (acc : Text)
    → n < ten_to fuel
    → digits_value 0 (decimal_from fuel n acc) ≡ digits_value n acc
unfolding decimal_from digits_value
value-decimal_from zero n acc h = ap (λ k. digits_value k acc) (omega arith)
value-decimal_from (suc fuel) n acc h = elim (Bool-cases (ltb n 10)) [
  | inl one ↦ rw (one, decimal_from) (ap (λ k. digits_value k acc) (omega arith))
  | inr more ↦
      rw (more, decimal_from)
        (value-decimal_from fuel (n / 10) ((b'0' + n % 10) ∷ acc) (omega arith)
          ∙ ap (λ k. digits_value k acc) (omega arith))
]

digits-decimal_from :
    (fuel n : ℕ) (acc : Text)
    → all is_digit acc ≡ true
    → all is_digit (decimal_from fuel n acc) ≡ true
unfolding decimal_from is_digit
digits-decimal_from zero n acc h = h
digits-decimal_from (suc fuel) n acc h =
    ground (arith, digits-decimal_from fuel (n / 10) ((b'0' + n % 10) ∷ acc))

-- The digits of a number below 10 ^ 20, so of any `size_t`, are digits, and have its value.
pub value-to_decimal :
    (n : ℕ)
    → n < ten_to 20
    → (all is_digit (to_decimal n) ≡ true) × (digits_value 0 (to_decimal n) ≡ n)
unfolding to_decimal digits_value
value-to_decimal n h = (digits-decimal_from 20 n [] refl, value-decimal_from 20 n [] h)

-- A number that an `int` holds is read back by `std::atoi`, as a positive one unless it is 0: the
-- limit of a channel that MODE announces is the limit that MODE +l reads.
pub atoi-to_decimal :
    (n : ℕ)
    → n < int_limit
    → (atoi (to_decimal n) ≡ n) × (is_positive_int (atoi (to_decimal n)) ≡ ltb 0 n)
unfolding atoi
atoi-to_decimal n h = let value = (value-to_decimal n (omega arith)).1 in rw value (ground arith)
