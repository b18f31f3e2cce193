-- ===== src/Command/User.antt =====
-- src/commands/User.cpp.
use irc.Base.{
  ℕ, Bool, true, false, not, ◌||◌, List, [], ◌∷◌, length, get_or, is_empty, all, ltb, ◌==◌,
  if◌then◌else◌,
}
use irc.Text.{Text, cr, lf}
use irc.Client.{Client, is_registered, set_username, set_user_set}
use irc.Server.{Server, text, line, tell, update_client}
use irc.Command.Common.{display_name}

abbrev pub max_username_length : ℕ
max_username_length = 32

abbrev pub is_username_byte : ℕ → Bool
is_username_byte c = not (c == b'@' || c == b'!' || c == b' ' || c == 0 || c == cr || c == lf)

unfoldable pub is_valid_username : Text → Bool
is_valid_username username =
    if is_empty username || ltb max_username_length (length username)
    then false
    else all is_username_byte username

-- `setUsername` and `setUserSet(true)`.
abbrev pub set_user : Text → Client → Client
set_user username c = set_user_set true (set_username username c)

-- The greeting of a client whose registration is complete.
unfoldable pub welcome : Client → Text
welcome who = line (
    text ":server 001 "
    ∷ who.nickname
    ∷ text " :Welcome to the ft_irc Network, "
    ∷ who.nickname
    ∷ text "!"
    ∷ who.username
    ∷ text "@localhost\r\n"
    ∷ [])

unfoldable pub greet : ℕ → Client → Server → Server
greet fd who s = if is_registered who then tell fd (welcome who) s else s

unfoldable pub execute_user : ℕ → Client → List Text → Server → Server
execute_user fd who params s =
    if who.user_set
    then tell fd
        (line (text ":server 462 " ∷ display_name who ∷ text " :You may not reregister\r\n" ∷ [])) s
    else if ltb (length params) 4
    then tell fd
        (line
          (text ":server 461 " ∷ display_name who ∷ text " USER :Not enough parameters\r\n" ∷ []))
        s
    else if not (is_valid_username (get_or params 0 []))
    then tell fd
        (line (
          text ":server 468 "
          ∷ display_name who
          ∷ text " "
          ∷ get_or params 0 []
          ∷ text " :Invalid username\r\n"
          ∷ []))
        s
    else greet fd (set_user (get_or params 0 []) who)
        (update_client fd (set_user (get_or params 0 [])) s)
