-- ===== src/Parser/RoundTrip.antt =====
-- Lines put together from a prefix, a command and parameters are parsed back into them.
use irc.Base.{
  ℕ, ◌+◌, suc, ◌-◌, length-append, ◌≡◌, refl, ◌∙◌, true, false, not, List, [], ◌∷◌, ◌++◌, none,
  some, arith, length, is_empty, get_or, all, All, ◌==◌, take-length-append, drop-length-append,
  get_or-length-append,
}
use irc.Text.{Text, find_text, strip_cr, cr}
use irc.Text.Casemap.{to_upper_case}
use irc.Text.Tokens.{is_space}
use irc.Text.Tokens.Laws.{IsToken, unwords, words-unwords}
use irc.Parser.{mark, fill, parse, parse_line}

-- The first byte is no colon.
abbrev pub Plain : Text → Type 0
Plain t = (get_or t 0 0 == b':') ≡ false

-- A middle parameter: a token that does not look like a trailing part.
abbrev pub IsMiddle : Text → Type 0
IsMiddle t = IsToken is_space t × Plain t

find_text-mark :
    (base rest : Text)
    → find_text mark base ≡ none
    → find_text mark (base ++ (mark ++ rest)) ≡ some (length base)
unfolding find_text
find_text-mark [] rest h = refl
find_text-mark (c ∷ []) rest h = ground arith
find_text-mark (c ∷ x ∷ base) rest h = ground (arith, find_text-mark (x ∷ base) rest)

unmarked-token : (t : Text) → all (λ c. not (is_space c)) t ≡ true → find_text mark t ≡ none
unfolding find_text is_space
unmarked-token [] h = refl
unmarked-token (c ∷ t) h = ground (arith, unmarked-token t)

unmarked-append :
    (t u : Text)
    → all (λ c. not (is_space c)) t ≡ true
    → Plain u
    → find_text mark u ≡ none
    → find_text mark (t ++ b' ' ∷ u) ≡ none
unfolding find_text is_space
unmarked-append [] [] a p h = refl
unmarked-append [] (x ∷ u) a p h = ground arith
unmarked-append (c ∷ t) u a p h = ground (arith, unmarked-append t u)

unwords-Plain : (t : Text) (ts : List Text) → IsToken is_space t → Plain t → Plain (unwords t ts)
unwords-Plain t [] k p = p
unwords-Plain [] (u ∷ us) k p = cc
unwords-Plain (c ∷ t) (u ∷ us) k p = p

unmarked-unwords :
    (t : Text) (ts : List Text)
    → IsToken is_space t
    → All IsMiddle ts
    → find_text mark (unwords t ts) ≡ none
unmarked-unwords t [] k m = unmarked-token t k.1
unmarked-unwords t (u ∷ us) k m =
    unmarked-append t (unwords u us) k.1 (unwords-Plain u us m.0.0 m.0.1)
      (unmarked-unwords u us m.0.0 m.1)

middle-tokens : (ts : List Text) → All IsMiddle ts → All (IsToken is_space) ts
middle-tokens [] h = tt
middle-tokens (t ∷ ts) h = (h.0.0, middle-tokens ts h.1)

parse_line-unwords :
    (t : Text) (ts : List Text) (trailing : Text)
    → IsToken is_space t
    → All IsMiddle ts
    → parse_line (unwords t ts ++ (mark ++ trailing)) ≡ fill (t ∷ ts) (some trailing)
unfolding parse_line
parse_line-unwords t ts trailing k m =
    let base : Text = unwords t ts in
    rw (
      find_text-mark base trailing (unmarked-unwords t ts k m),
      take-length-append base (mark ++ trailing),
      drop-length-append base (mark ++ trailing) 2,
      words-unwords t ts (k, middle-tokens ts m),
      parse_line,
    )

strip_cr-mark :
    (base trailing : Text)
    → (get_or (b':' ∷ trailing) (length trailing) 0 == cr) ≡ false
    → strip_cr (base ++ (mark ++ trailing)) ≡ base ++ (mark ++ trailing)
unfolding strip_cr
strip_cr-mark base trailing h =
    let last = get_or-length-append base (mark ++ trailing) (suc (length trailing)) 0 in
    let size : length (base ++ (mark ++ trailing)) - 1 ≡ length base + suc (length trailing) =
      omega (arith, length-append base (mark ++ trailing)) in
    rw (size, last, h) (ground arith)

is_empty-append : (s t : Text) (x : ℕ) → is_empty (s ++ x ∷ t) ≡ false
is_empty-append [] t x = refl
is_empty-append (c ∷ s) t x = refl

-- A line on the wire: a prefix if there is one, the command, the middle parameters, and the
-- trailing parameter.
abbrev pub wire : Text → Text → List Text → Text → Text
wire [] command middle trailing = unwords command middle ++ (mark ++ trailing)
wire (c ∷ prefix) command middle trailing =
    unwords (b':' ∷ c ∷ prefix) (command ∷ middle) ++ (mark ++ trailing)

-- The line does not end in a CR.
abbrev pub EndsPlain : Text → Type 0
EndsPlain trailing = (get_or (b':' ∷ trailing) (length trailing) 0 == cr) ≡ false

parse-unwords :
    (t : Text) (ts : List Text) (trailing : Text)
    → IsToken is_space t
    → All IsMiddle ts
    → EndsPlain trailing
    → parse (unwords t ts ++ (mark ++ trailing)) ≡ fill (t ∷ ts) (some trailing)
unfolding parse
parse-unwords t ts trailing k m e = rw (
  strip_cr-mark (unwords t ts) trailing e,
  is_empty-append (unwords t ts) (b':' ∷ trailing) b' ',
  parse_line-unwords t ts trailing k m,
)

-- The parser reads back the prefix, the command (in upper case) and the parameters of every line
-- that has a trailing part, whose prefix is empty or free of white space, whose command and
-- middle parameters are not empty, free of white space and do not begin with a colon, and which
-- does not end in a CR; the trailing part may hold spaces and colons.
pub parse-wire :
    (prefix command : Text) (middle : List Text) (trailing : Text)
    → all (λ c. not (is_space c)) prefix ≡ true
    → IsMiddle command
    → All IsMiddle middle
    → EndsPlain trailing
    → parse (wire prefix command middle trailing) ≡ record {
      prefix = prefix;
      command = to_upper_case command;
      params = middle ++ trailing ∷ [];
    }
unfolding fill
parse-wire [] command middle trailing p k m e =
    parse-unwords command middle trailing k.0 m e ∙ rw (k.1, fill)
parse-wire (c ∷ prefix) command middle trailing p k m e =
    parse-unwords (b':' ∷ c ∷ prefix) (command ∷ middle) trailing (refl, unfold is_space in p)
      (k, m) e
