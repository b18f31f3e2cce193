-- ===== src/Command/Kick.antt =====
-- src/commands/Kick.cpp.
use irc.Base.{
  ℕ, ◌+◌, not, ◌&&◌, List, [], ◌∷◌, none, some, length, get_or, ltb, ◌==◌, if◌then◌else◌,
}
use irc.Text.{Text, text_key}
use irc.Text.Tokens.{split_string}
use irc.Client.{Client}
use irc.Channel.{Channel, is_member, is_operator, remove_member}
use irc.Server.{
  Server, text, line, tell, broadcast, find_client_by_nick, find_channel, update_channel,
}
use irc.Command.Common.{user_prefix}

-- A reply about the channel.
abbrev pub about_channel : ℕ → Client → Text → Text → Text → Server → Server
about_channel fd who code name why s =
    tell fd (line (code ∷ who.nickname ∷ text " " ∷ name ∷ why ∷ [])) s

abbrev pub not_on_channel : ℕ → Client → Text → Text → Server → Server
not_on_channel fd who target_nick name s =
    tell fd
      (line (
        text ":server 441 "
        ∷ who.nickname
        ∷ text " "
        ∷ target_nick
        ∷ text " "
        ∷ name
        ∷ text " :They aren't on that channel\r\n"
        ∷ []))
      s

-- The kick is announced, and the member removed.
unfoldable pub kick_member : ℕ → Client → Text → Text → Text → ℕ → Channel → Server → Server
kick_member fd who name target_nick reason target ch s =
    let message = line (
      user_prefix who
      ∷ text " KICK "
      ∷ name
      ∷ text " "
      ∷ target_nick
      ∷ text " :"
      ∷ reason
      ∷ text "\r\n"
      ∷ []) in
    update_channel name (remove_member target)
      (tell fd message (broadcast ch.members message (some fd) s))

unfoldable pub kick_from : ℕ → Client → Text → Text → Text → Channel → Server → Server
kick_from fd who name target_nick reason ch s =
    if not (is_member fd ch)
    then about_channel fd who (text ":server 442 ") name (text " :You're not on that channel\r\n") s
    else if not (is_operator fd ch)
    then about_channel fd who (text ":server 482 ") name (text " :You're not channel operator\r\n")
        s
    else elim (find_client_by_nick target_nick s) [
      | none ↦ not_on_channel fd who target_nick name s
      | some target ↦
          if not (is_member target ch)
          then not_on_channel fd who target_nick name s
          else kick_member fd who name target_nick reason target ch s
    ]

unfoldable pub kick_one : ℕ → Client → Text → Text → Text → Server → Server
kick_one fd who name target_nick reason s = elim (find_channel name s) [
  | none ↦ about_channel fd who (text ":server 403 ") name (text " :No such channel\r\n") s
  | some ch ↦ kick_from fd who name target_nick reason ch s
]

-- The loop over the users, from index `i` on: one channel serves for all, else each user has the
-- channel at its own index.
unfoldable pub kick_all : ℕ → Client → List Text → ℕ → List Text → Text → Server → Server
kick_all fd who channels i [] reason s = s
kick_all fd who channels i (user ∷ users) reason s =
    kick_all fd who channels (i + 1) users reason
      (kick_one fd who (get_or channels (if length channels == 1 then 0 else i) []) user reason s)

abbrev pub kick_usage : ℕ → Client → Server → Server
kick_usage fd who s =
    tell fd
      (line (text ":server 461 " ∷ who.nickname ∷ text " KICK :Not enough parameters\r\n" ∷ [])) s

unfoldable pub execute_kick : ℕ → Client → List Text → Server → Server
execute_kick fd who params s =
    let channels = split_string (get_or params 0 []) b',' in
    let users = split_string (get_or params 1 []) b',' in
    if ltb (length params) 2
    then kick_usage fd who s
    else if not (length channels == 1) && not (length channels == length users)
    then kick_usage fd who s
    else kick_all fd who channels 0 users (get_or params 2 (text "No reason given")) s
