-- ===== src/Parser.antt =====
-- src/parser/Parser.cpp: a line becomes a prefix, a command and parameters.
pub mod RoundTrip
use irc.Base.{
  ℕ, ◌+◌, List, [], ◌∷◌, ◌++◌, Option, none, some, ◌==◌, if◌then◌else◌, is_empty, get_or, take,
  drop,
}
use irc.Text.{Text, find_text, strip_cr}
use irc.Text.Casemap.{to_upper_case}
use irc.Text.Tokens.{words}

pub record Message : Type 0 where
  pub prefix : Text
  pub command : Text
  pub params : List Text

abbrev pub empty_message : Message
empty_message = record { prefix = []; command = []; params = [] }

-- The parameters that the trailing part adds, if the line has one.
abbrev pub trailing_params : Option Text → List Text
trailing_params none = []
trailing_params (some t) = t ∷ []

-- Behind a prefix the next word, if there is one, is the command.
pub fill_prefixed : Text → List Text → Option Text → Message
fill_prefixed prefix [] trailing = record {
  prefix = prefix;
  command = [];
  params = trailing_params trailing;
}
fill_prefixed prefix (word ∷ rest) trailing = record {
  prefix = prefix;
  command = to_upper_case word;
  params = rest ++ trailing_params trailing;
}

-- The message of the words of the base part; with no word the trailing part is dropped.
pub fill : List Text → Option Text → Message
unfolding fill_prefixed
fill [] trailing = empty_message
fill (word ∷ rest) trailing =
    if get_or word 0 0 == b':' then fill_prefixed (drop 1 word) rest trailing else record {
      prefix = [];
      command = to_upper_case word;
      params = rest ++ trailing_params trailing;
    }

abbrev pub mark : Text
mark = b' ' ∷ b':' ∷ []

-- The line is cut at the first " :".
pub parse_line : Text → Message
unfolding fill
parse_line line = elim (find_text mark line) [
  | none ↦ fill (words line) none
  | some pos ↦ fill (words (take pos line)) (some (drop (pos + 2) line))
]

unfoldable pub parse : Text → Message
unfolding parse_line
parse raw_line =
    let line = strip_cr raw_line in if is_empty line then empty_message else parse_line line
