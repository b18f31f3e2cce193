-- ===== src/Command/Dispatch.antt =====
-- `setupCommands` and `processLine` of src/server/Server.cpp.
use Prim.Native.String.{String}
use irc.Base.{ℕ, Bool, not, ◌&&◌, List, [], ◌∷◌, none, some, get_or, is_empty, if◌then◌else◌}
use irc.Text.{Text, text_eq, int_key, text_key}
use irc.Text.Casemap.{to_upper_case}
use irc.Map.{Map, lookup, insert}
use irc.Parser.{Message, parse}
use irc.Client.{Client, mark_closing, is_registered}
use irc.Server.{Server, text, line, tell, update_client}
use irc.Command.Common.{display_name}
use irc.Command.Pass.{execute_pass}
use irc.Command.Nick.{execute_nick}
use irc.Command.User.{execute_user}
use irc.Command.Join.{execute_join}
use irc.Command.Privmsg.{execute_privmsg}
use irc.Command.Kick.{execute_kick}
use irc.Command.Invite.{execute_invite}
use irc.Command.Topic.{execute_topic}
use irc.Command.Mode.{execute_mode}

-- The subclasses of `Command`.
pub data Command : Type 0 where
  pass nick user join privmsg kick invite topic mode : Command

unfoldable pub setup_commands : Map Text Command
setup_commands = insert (text "PASS") pass (
    insert (text "NICK") nick (
      insert (text "USER") user (
        insert (text "JOIN") join (
          insert (text "PRIVMSG") privmsg (
            insert (text "KICK") kick (
              insert (text "INVITE") invite
                (insert (text "TOPIC") topic (insert (text "MODE") mode []))))))))

-- The virtual call `execute`.
unfoldable pub execute : Command → ℕ → Client → List Text → Server → Server
execute pass = execute_pass
execute nick = execute_nick
execute user = execute_user
execute join = execute_join
execute privmsg = execute_privmsg
execute kick = execute_kick
execute invite = execute_invite
execute topic = execute_topic
execute mode = execute_mode

-- `name` is one of the literals.
abbrev pub is_named : Text → String → Bool
is_named name literal = text_eq name (text literal)

-- The gates in front of a command: the password, then a complete registration.
unfoldable pub run_command : ℕ → Client → Text → List Text → Command → Server → Server
run_command fd who name params command s =
    if not (is_named name "PASS") && not who.pass_ok
    then tell fd (text ":server 451 * :You have not registered\r\n") s
    else if not (is_named name "PASS")
        && not (is_named name "NICK")
        && not (is_named name "USER")
        && not (is_registered who)
    then tell fd
        (line (text ":server 451 " ∷ display_name who ∷ text " :You have not registered\r\n" ∷ []))
        s
    else execute command fd who params s

-- CAP, PING and QUIT are answered at any time.
unfoldable pub process_message : ℕ → Client → Message → Server → Server
process_message fd who message s =
    let name = message.command in
    let params = message.params in
    if is_empty name
    then s
    else if is_named name "CAP"
    then (if not (is_empty params) && is_named (to_upper_case (get_or params 0 [])) "LS"
        then tell fd (text ":server CAP * LS :\r\n") s
        else s)
    else if is_named name "PING"
    then tell fd
        (line (text ":server PONG server :" ∷ get_or params 0 (text "ft_irc") ∷ text "\r\n" ∷ [])) s
    else if is_named name "QUIT"
    then update_client fd
        (mark_closing (line (text "Quit: " ∷ get_or params 0 (text "Client Quit") ∷ []))) s
    else elim (lookup name setup_commands) [
      | none ↦
          tell fd
            (line (
              text ":server 421 "
              ∷ display_name who
              ∷ text " "
              ∷ name
              ∷ text " :Unknown command\r\n"
              ∷ []))
            s
      | some command ↦ run_command fd who name params command s
    ]

unfoldable pub process_line : ℕ → Text → Server → Server
process_line fd raw_line s = elim (lookup fd s.clients) [
  | none ↦ s
  | some who ↦ process_message fd who (parse raw_line) s
]
