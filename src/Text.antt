-- ===== src/Text.antt =====
-- `std::string` as the list of its bytes, with the calls of `std::string`, `std::stringstream`,
-- `toupper` and `isspace` (in the C locale) that the server makes, and the two case mappings of
-- src/server/Server.cpp.
mod Order
pub mod Tokens
pub mod Casemap
pub mod Search
pub mod Decimal
unfoldable pub use Order.*
use Prim.Native.Char.{code}
use Prim.Native.String.{String}
use irc.Base.{
  ℕ, suc, ◌-◌, Bool, true, false, ◌&&◌, not, List, [], ◌∷◌, Option, none, some, length, take,
  get_or, is_empty, ◌==◌, if◌then◌else◌,
}

-- The bytes of a literal; every literal of the source is ASCII.
abbrev pub codes : String → List ℕ
codes String.[] = []
codes (String.◌∷◌ c s) = code c ∷ codes s

abbrev pub cr : ℕ
cr = 13

abbrev pub lf : ℕ
lf = 10

-- `size_t` positions: `none` is `std::string::npos`.
unfoldable pub find_byte : ℕ → List ℕ → Option ℕ
find_byte b [] = none
find_byte b (c ∷ cs) = elim (c == b) [
  | true ↦ some 0
  | false ↦ elim (find_byte b cs) [ none ↦ none | some i ↦ some (suc i) ]
]

unfoldable pub starts_with : Text → Text → Bool
starts_with [] s = true
starts_with (p ∷ ps) [] = false
starts_with (p ∷ ps) (c ∷ cs) = p == c && starts_with ps cs

-- `s.find(pattern)`, the first position where it stands.
unfoldable pub find_text : Text → Text → Option ℕ
unfolding starts_with
find_text pattern [] = if is_empty pattern then some 0 else none
find_text pattern (c ∷ cs) = elim (starts_with pattern (c ∷ cs)) [
  | true ↦ some 0
  | false ↦ elim (find_text pattern cs) [ none ↦ none | some i ↦ some (suc i) ]
]

-- `if (!line.empty() && line[line.size() - 1] == '\r') line.erase(line.size() - 1);`
unfoldable pub strip_cr : Text → Text
strip_cr line =
    if not (is_empty line) && get_or line (length line - 1) 0 == cr
    then take (length line - 1) line
    else line
