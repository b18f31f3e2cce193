-- ===== src/Policy/Refine/Dispatch.antt =====
-- `processLine`: the gates, and the answers to CAP, PING and QUIT.
use irc.Base.{
  not-false, ℕ, ◌≡◌, refl, false, not, ◌&&◌, List, [], none, some, get_or, is_empty, arith,
}
use irc.Text.{Text, text_eq, text_eq_iff, int_key, text_key}
use irc.Text.Casemap.{to_upper_case}
use irc.Map.{Map, lookup}
use irc.Map.Laws.{lookup-insert}
use irc.Parser.{Message, parse}
use irc.Client.{Client, is_registered}
use irc.Server.{Server, text}
use irc.Command.Dispatch.{
  Command, pass, nick, user, join, privmsg, kick, invite, topic, mode, setup_commands, execute,
  is_named, run_command, process_message, process_line,
}
use irc.Policy.Names.{Named}
use irc.Policy.Refine.Enrol.{execute_pass-Acts, execute_nick-Acts, execute_user-Acts}
use irc.Policy.Refine.Join.{execute_join-Acts}
use irc.Policy.Refine.Mode.{execute_mode-Acts}
use irc.Policy.Refine.Moderate.{
  execute_kick-Acts, execute_invite-Acts, execute_topic-Acts, execute_privmsg-Acts,
}
use irc.Policy.{
  closes, Acts, done, also, Acts-tell, Acts-if, Acts-either, Acts-option, Registered, HasPass,
}

abbrev empty_table : Map Text Command
empty_table = []

-- The literal under which each command stands in the table.
abbrev pub command_name : Command → Text
command_name pass = text "PASS"
command_name nick = text "NICK"
command_name user = text "USER"
command_name join = text "JOIN"
command_name privmsg = text "PRIVMSG"
command_name kick = text "KICK"
command_name invite = text "INVITE"
command_name topic = text "TOPIC"
command_name mode = text "MODE"

lookup_empty : (name : Text) → lookup name (empty_table) ≡ none
unfolding lookup
lookup_empty name = refl

-- A command is found under its own literal only.
find_command :
    (name : Text) {command : Command}
    → lookup name setup_commands ≡ some command
    → command_name command ≡ name
unfolding setup_commands
find_command name {command} e =
    let h = simp (lookup-insert, lookup_empty) at e in
    ground (
      arith,
      h,
      text_eq_iff (text "PASS") name,
      text_eq_iff (text "NICK") name,
      text_eq_iff (text "USER") name,
      text_eq_iff (text "JOIN") name,
      text_eq_iff (text "PRIVMSG") name,
      text_eq_iff (text "KICK") name,
      text_eq_iff (text "INVITE") name,
      text_eq_iff (text "TOPIC") name,
      text_eq_iff (text "MODE") name,
    )

module _ (fd : ℕ) (who : Client) (params : List Text) (s : Server) where
  -- The gates of a command that is none of PASS, NICK and USER.
  gated :
      (command : Command) (name : Text)
      → is_named name "PASS" ≡ false
      → is_named name "NICK" ≡ false
      → is_named name "USER" ≡ false
      → (Registered who → Acts fd who params s s (execute command fd who params s))
      → Acts fd who params s s (run_command fd who name params command s)
  unfolding run_command
  gated command name p n u acts =
      rw (p, n, u, run_command)
        (Acts-either (not who.pass_ok) (Acts-tell _ _ done)
          (Acts-if (not (is_registered who)) (λ _. Acts-tell _ _ done) (λ r. acts (not-false _ r))))

  -- NICK and USER want the password only.
  half_gated :
      (command : Command) (name : Text)
      → is_named name "PASS" ≡ false
      → (HasPass who → Acts fd who params s s (execute command fd who params s))
      → Acts fd who params s s (run_command fd who name params command s)
  unfolding run_command
  half_gated command name p acts =
      rw (p, run_command)
        (Acts-if (not who.pass_ok) (λ _. Acts-tell _ _ done)
          (λ h.
            Acts-either
              (not (is_named name "NICK") && not (is_named name "USER") && not (is_registered who))
              (Acts-tell _ _ done) (acts (not-false _ h))))

  run_command-Acts :
      (command : Command)
      → Named s
      → Acts fd who params s s (run_command fd who (command_name command) params command s)
  unfolding execute text text_eq
  run_command-Acts pass n = unfold run_command in execute_pass-Acts fd who params s
  run_command-Acts nick n = half_gated nick _ refl (execute_nick-Acts fd who params s)
  run_command-Acts user n = half_gated user _ refl (execute_user-Acts fd who params s)
  run_command-Acts join n =
      gated join _ refl refl refl (λ r. execute_join-Acts fd who params s r s n)
  run_command-Acts privmsg n =
      gated privmsg _ refl refl refl (λ r. execute_privmsg-Acts fd who params s r s)
  run_command-Acts kick n = gated kick _ refl refl refl (λ r. execute_kick-Acts fd who params s r s)
  run_command-Acts invite n =
      gated invite _ refl refl refl (λ r. execute_invite-Acts fd who params s r s)
  run_command-Acts topic n =
      gated topic _ refl refl refl (λ r. execute_topic-Acts fd who params s r s)
  run_command-Acts mode n = gated mode _ refl refl refl (execute_mode-Acts fd who params s)

  process_message-Acts :
      (message : Message)
      → message.params ≡ params
      → Named s
      → Acts fd who params s s (process_message fd who message s)
  unfolding process_message
  process_message-Acts message e n = Acts-either (is_empty message.command) done (
      Acts-either (is_named message.command "CAP")
        (Acts-either
          (not (is_empty message.params)
            && is_named (to_upper_case (get_or message.params 0 [])) "LS")
          (Acts-tell _ _ done) done)
        (Acts-either (is_named message.command "PING") (Acts-tell _ _ done) (
          Acts-either (is_named message.command "QUIT") (also done (closes _)) (
            Acts-option (lookup message.command setup_commands) (λ _. Acts-tell _ _ done)
              λ command found.
                rw (e, ← find_command message.command found) (run_command-Acts command n)))))

-- In a server whose channels stand under their names, every line of a client that the server holds
-- is a sequence of acts that the policy grants it, with the parameters of the line: it logs in by
-- the password of the server alone, takes a nickname or a username only after that, and acts on
-- channels only when its registration is complete, each time with the right that the act takes. The
-- policy asks no right for sending messages.
pub process_line-Acts :
    (fd : ℕ) (who : Client) (raw_line : Text) (s : Server)
    → lookup fd s.clients ≡ some who
    → Named s
    → Acts fd who (parse raw_line).params s s (process_line fd raw_line s)
unfolding process_line
process_line-Acts fd who raw_line s e n =
    rw (e, process_line)
      (process_message-Acts fd who (parse raw_line).params s (parse raw_line) refl n)
