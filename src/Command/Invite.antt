-- ===== src/Command/Invite.antt =====
-- src/commands/InviteCommand.cpp.
use irc.Base.{ℕ, not, ◌&&◌, List, [], ◌∷◌, none, some, length, get_or, ltb, if◌then◌else◌}
use irc.Text.{Text, text_key}
use irc.Client.{Client}
use irc.Channel.{Channel, is_member, is_operator, add_invited}
use irc.Server.{Server, text, line, tell, find_client_by_nick, find_channel, update_channel}
use irc.Command.Common.{user_prefix}
use irc.Command.Kick.{about_channel}

-- The invitation is recorded, confirmed, and sent to the guest.
unfoldable pub invite_guest : ℕ → Client → Text → Text → ℕ → Server → Server
invite_guest fd who target_nick name target s =
    let invited = update_channel name (add_invited target) s in
    let confirmed =
      tell fd
        (line (
          text ":server 341 "
          ∷ who.nickname
          ∷ text " "
          ∷ target_nick
          ∷ text " "
          ∷ name
          ∷ text "\r\n"
          ∷ []))
        invited in
    tell target
      (line (user_prefix who ∷ text " INVITE " ∷ target_nick ∷ text " :" ∷ name ∷ text "\r\n" ∷ []))
      confirmed

unfoldable pub invite_to : ℕ → Client → Text → Text → ℕ → Channel → Server → Server
invite_to fd who target_nick name target ch s =
    if not (is_member fd ch)
    then about_channel fd who (text ":server 442 ") name (text " :You're not on that channel\r\n") s
    else if is_member target ch
    then tell fd
        (line (
          text ":server 443 "
          ∷ who.nickname
          ∷ text " "
          ∷ target_nick
          ∷ text " "
          ∷ name
          ∷ text " :is already on channel\r\n"
          ∷ []))
        s
    else if ch.is_invite_only && not (is_operator fd ch)
    then about_channel fd who (text ":server 482 ") name (text " :You're not channel operator\r\n")
        s
    else invite_guest fd who target_nick name target s

unfoldable pub execute_invite : ℕ → Client → List Text → Server → Server
execute_invite fd who params s =
    let target_nick = get_or params 0 [] in
    let name = get_or params 1 [] in
    if ltb (length params) 2
    then tell fd
        (line (text ":server 461 " ∷ who.nickname ∷ text " INVITE :Not enough parameters\r\n" ∷ []))
        s
    else elim (find_client_by_nick target_nick s) [
      | none ↦
          about_channel fd who (text ":server 401 ") target_nick (text " :No such nick/channel\r\n")
            s
      | some target ↦ elim (find_channel name s) [
        | none ↦ about_channel fd who (text ":server 403 ") name (text " :No such channel\r\n") s
        | some ch ↦ invite_to fd who target_nick name target ch s
      ]
    ]
