-- ===== src/Text/Tokens.antt =====
-- Splitting: `stream >> word`, and `std::getline(stream, token, delimiter)` in a loop, as the
-- function `splitString` of JOIN, PRIVMSG and KICK runs it.
pub mod Laws
use irc.Base.{
  ℕ, Bool, true, false, ◌&&◌, ◌||◌, not, List, [], ◌∷◌, ◌++◌, is_empty, select, leb, ◌==◌,
  if◌then◌else◌,
}
use irc.Text.Order.{Text}

-- `isspace` in the C locale.
unfoldable pub is_space : ℕ → Bool
is_space c = c == b' ' || leb 9 c && leb c 13

-- The words that `stream >> word` reads until it fails; `word` holds what is read of the current.
unfoldable pub words_from : Text → Text → List Text
words_from word [] = if is_empty word then [] else word ∷ []
words_from word (c ∷ cs) =
    let rest = words_from (if is_space c then [] else word ++ c ∷ []) cs in
    if is_space c && not (is_empty word) then word ∷ rest else rest

unfoldable pub words : Text → List Text
unfolding words_from is_space
words = words_from []

-- The tokens that `std::getline` yields until it fails: at the end of the text it fails if it
-- has read nothing.
unfoldable pub getline_from : ℕ → Text → Text → List Text
getline_from d token [] = if is_empty token then [] else token ∷ []
getline_from d token (c ∷ cs) =
    let rest = getline_from d (if c == d then [] else token ++ c ∷ []) cs in
    if c == d then token ∷ rest else rest

-- Empty tokens are dropped.
unfoldable pub split_string : Text → ℕ → List Text
unfolding getline_from
split_string s d = select (λ token. not (is_empty token)) (getline_from d [] s)
