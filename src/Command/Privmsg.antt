-- ===== src/Command/Privmsg.antt =====
-- src/commands/PrivmsgCommand.cpp.
use irc.Base.{
  ℕ, Bool, false, not, ◌||◌, List, [], ◌∷◌, none, some, length, get_or, is_empty, ltb, ◌==◌,
  if◌then◌else◌,
}
use irc.Text.{Text, text_key}
use irc.Text.Tokens.{split_string}
use irc.Client.{Client}
use irc.Channel.{is_member}
use irc.Server.{Server, text, line, tell, broadcast, find_client_by_nick, find_channel}
use irc.Command.Common.{user_prefix}
use irc.Command.Kick.{about_channel}

unfoldable pub is_channel : Text → Bool
is_channel target =
    if is_empty target then false else get_or target 0 0 == b'#' || get_or target 0 0 == b'&'

abbrev pub no_such_nick : ℕ → Client → Text → Server → Server
no_such_nick fd who target s =
    about_channel fd who (text ":server 401 ") target (text " :No such nick/channel\r\n") s

-- The message as its receivers see it.
pub full_message : Client → Text → Text → Text
full_message who target message_text =
    line (user_prefix who ∷ text " PRIVMSG " ∷ target ∷ text " :" ∷ message_text ∷ text "\r\n" ∷ [])

unfoldable pub message_one : ℕ → Client → Text → Text → Server → Server
message_one fd who message_text target s =
    if is_channel target
    then elim (find_channel target s) [
      | none ↦ no_such_nick fd who target s
      | some ch ↦
          if not (is_member fd ch)
          then about_channel fd who (text ":server 404 ") target
              (text " :Cannot send to channel\r\n") s
          else broadcast ch.members (full_message who target message_text) (some fd) s
    ]
    else elim (find_client_by_nick target s) [
      | none ↦ no_such_nick fd who target s
      | some receiver ↦ tell receiver (full_message who target message_text) s
    ]

unfoldable pub message_all : ℕ → Client → Text → List Text → Server → Server
message_all fd who message_text [] s = s
message_all fd who message_text (target ∷ targets) s =
    message_all fd who message_text targets (message_one fd who message_text target s)

unfoldable pub execute_privmsg : ℕ → Client → List Text → Server → Server
execute_privmsg fd who params s =
    if is_empty params
    then tell fd
        (line (text ":server 411 " ∷ who.nickname ∷ text " :No recipient given (PRIVMSG)\r\n" ∷ []))
        s
    else if ltb (length params) 2
    then tell fd (line (text ":server 412 " ∷ who.nickname ∷ text " :No text to send\r\n" ∷ [])) s
    else message_all fd who (get_or params 1 []) (split_string (get_or params 0 []) b',') s
