-- ===== src/Command/Nick.antt =====
-- src/commands/Nick.cpp.
use irc.Base.{
  ℕ, Bool, true, false, not, ◌&&◌, ◌||◌, List, [], ◌∷◌, ◌++◌, none, some, length, get_or, is_empty,
  all, contains, drop, ltb, ◌==◌, if◌then◌else◌,
}
use irc.Text.{Text, codes, text_eq}
use irc.Client.{Client, is_registered, set_nickname, set_nick_set}
use irc.Server.{
  Server, text, line, tell, update_client, find_client_by_nick, broadcast_nickname_change,
}
use irc.Command.Common.{display_name}
use irc.Command.User.{greet}

abbrev pub max_nickname_length : ℕ
max_nickname_length = 9

unfoldable pub valid_first_characters : Text
valid_first_characters = codes "ABCDEFGHIJKLMNOPQRSTUVWXYZabcdefghijklmnopqrstuvwxyz[]\\`_^{|}"

unfoldable pub valid_remaining_characters : Text
unfolding valid_first_characters
valid_remaining_characters = valid_first_characters ++ codes "0123456789-"

unfoldable pub is_valid_nickname : Text → Bool
unfolding valid_first_characters valid_remaining_characters
is_valid_nickname nickname =
    if is_empty nickname || ltb max_nickname_length (length nickname)
    then false
    else if not (contains (get_or nickname 0 0) valid_first_characters)
    then false
    else all (λ c. contains c valid_remaining_characters) (drop 1 nickname)

-- `setNickname` and `setNickSet(true)`.
abbrev pub set_nick : Text → Client → Client
set_nick nickname c = set_nick_set true (set_nickname nickname c)

-- A new nickname is announced if the client was registered and it differs.
unfoldable pub announce_nick : ℕ → Client → Text → Server → Server
announce_nick fd who new_nickname s =
    if is_registered who && not (text_eq who.nickname new_nickname)
    then broadcast_nickname_change fd who who.nickname new_nickname s
    else s

-- The client is greeted if this completes its registration.
unfoldable pub change_nick : ℕ → Client → Text → Server → Server
change_nick fd who new_nickname s =
    let announced =
      announce_nick fd who new_nickname (update_client fd (set_nick new_nickname) s) in
    if is_registered who then announced else greet fd (set_nick new_nickname who) announced

-- Another client has the nickname.
abbrev pub is_taken_by_other : ℕ → Text → Server → Bool
is_taken_by_other fd nickname s = elim (find_client_by_nick nickname s) [
  | none ↦ false
  | some owner ↦ not (owner == fd)
]

unfoldable pub execute_nick : ℕ → Client → List Text → Server → Server
execute_nick fd who params s =
    if is_empty params || is_empty (get_or params 0 [])
    then tell fd (text ":server 431 * :No nickname given\r\n") s
    else if not (is_valid_nickname (get_or params 0 []))
    then tell fd
        (line (
          text ":server 432 "
          ∷ display_name who
          ∷ text " "
          ∷ get_or params 0 []
          ∷ text " :Erroneous nickname\r\n"
          ∷ []))
        s
    else if is_taken_by_other fd (get_or params 0 []) s
    then tell fd
        (line (
          text ":server 433 "
          ∷ display_name who
          ∷ text " "
          ∷ get_or params 0 []
          ∷ text " :Nickname is already in use\r\n"
          ∷ []))
        s
    else change_nick fd who (get_or params 0 []) s
