-- ===== src/Text/Casemap.antt =====
-- `toupper`, `toUpperCase` and `toIrcLowerCase`.
use irc.Base.{ℕ, ◌+◌, ◌-◌, ◌≡◌, refl, ◌&&◌, [], ◌∷◌, arith, leb, ◌==◌, if◌then◌else◌}
use irc.Text.Order.{Text}

unfoldable pub toupper : ℕ → ℕ
toupper c = if leb b'a' c && leb c b'z' then c - 32 else c

unfoldable pub to_upper_case : Text → Text
unfolding toupper
to_upper_case [] = []
to_upper_case (c ∷ cs) = toupper c ∷ to_upper_case cs

unfoldable pub irc_lower : ℕ → ℕ
irc_lower c =
    if leb b'A' c && leb c b'Z'
    then c - b'A' + b'a'
    else if c == b'['
    then b'{'
    else if c == b']'
    then b'}'
    else if c == b'\\'
    then b'|'
    else if c == b'~'
    then b'^'
    else c

unfoldable pub to_irc_lower_case : Text → Text
unfolding irc_lower
to_irc_lower_case [] = []
to_irc_lower_case (c ∷ cs) = irc_lower c ∷ to_irc_lower_case cs

toupper_idem : (c : ℕ) → toupper (toupper c) ≡ toupper c
unfolding toupper
toupper_idem c = ground arith

pub to_upper_case_idem : (s : Text) → to_upper_case (to_upper_case s) ≡ to_upper_case s
unfolding to_upper_case
to_upper_case_idem [] = refl
to_upper_case_idem (c ∷ s) = unfold to_upper_case in cc (toupper_idem c, to_upper_case_idem s)

irc_lower_idem : (c : ℕ) → irc_lower (irc_lower c) ≡ irc_lower c
unfolding irc_lower
irc_lower_idem c = ground arith

pub to_irc_lower_case_idem :
    (s : Text) → to_irc_lower_case (to_irc_lower_case s) ≡ to_irc_lower_case s
unfolding to_irc_lower_case
to_irc_lower_case_idem [] = refl
to_irc_lower_case_idem (c ∷ s) = cc (irc_lower_idem c, to_irc_lower_case_idem s)

pub lower_of_nil : (n : Text) → to_irc_lower_case n ≡ [] → n ≡ []
unfolding to_irc_lower_case
lower_of_nil [] e = refl
lower_of_nil (c ∷ n) e = cc

pub lower_nil : to_irc_lower_case [] ≡ []
unfolding to_irc_lower_case
lower_nil = refl
