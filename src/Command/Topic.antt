-- ===== src/Command/Topic.antt =====
-- src/commands/TopicCommand.cpp.
use irc.Base.{
  ℕ, not, ◌&&◌, List, [], ◌∷◌, none, some, length, get_or, is_empty, ltb, ◌==◌, if◌then◌else◌,
}
use irc.Text.{Text, text_key}
use irc.Client.{Client}
use irc.Channel.{Channel, is_member, is_operator, set_topic}
use irc.Server.{Server, text, line, tell, broadcast, find_channel, update_channel}
use irc.Command.Common.{user_prefix}
use irc.Command.Kick.{about_channel}

unfoldable pub show_topic : ℕ → Client → Text → Channel → Server → Server
show_topic fd who name ch s =
    if is_empty ch.topic
    then about_channel fd who (text ":server 331 ") name (text " :No topic is set\r\n") s
    else tell fd
        (line (
          text ":server 332 "
          ∷ who.nickname
          ∷ text " "
          ∷ name
          ∷ text " :"
          ∷ ch.topic
          ∷ text "\r\n"
          ∷ []))
        s

unfoldable pub change_topic : ℕ → Client → Text → Text → Channel → Server → Server
change_topic fd who name new_topic ch s =
    let message =
      line (user_prefix who ∷ text " TOPIC " ∷ name ∷ text " :" ∷ new_topic ∷ text "\r\n" ∷ []) in
    tell fd message
      (broadcast ch.members message (some fd) (update_channel name (set_topic new_topic) s))

unfoldable pub topic_of : ℕ → Client → List Text → Channel → Server → Server
topic_of fd who params ch s =
    let name = get_or params 0 [] in
    if not (is_member fd ch)
    then about_channel fd who (text ":server 442 ") name (text " :You're not on that channel\r\n") s
    else if length params == 1
    then show_topic fd who name ch s
    else if ch.topic_restricted && not (is_operator fd ch)
    then about_channel fd who (text ":server 482 ") name (text " :You're not channel operator\r\n")
        s
    else change_topic fd who name (get_or params 1 []) ch s

unfoldable pub execute_topic : ℕ → Client → List Text → Server → Server
execute_topic fd who params s =
    let name = get_or params 0 [] in
    if ltb (length params) 1
    then tell fd
        (line (text ":server 461 " ∷ who.nickname ∷ text " TOPIC :Not enough parameters\r\n" ∷ []))
        s
    else elim (find_channel name s) [
      | none ↦ about_channel fd who (text ":server 403 ") name (text " :No such channel\r\n") s
      | some ch ↦ topic_of fd who params ch s
    ]
