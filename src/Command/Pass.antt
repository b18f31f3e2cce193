-- ===== src/Command/Pass.antt =====
-- src/commands/Pass.cpp.
pub mod Lockout
use irc.Base.{ℕ, true, ◌||◌, List, [], ◌∷◌, none, some, get_or, is_empty, leb, if◌then◌else◌}
use irc.Text.{Text, text_eq, int_key}
use irc.Map.{lookup}
use irc.Client.{set_pass_ok, Client, record_failed_pass_attempt, mark_closing}
use irc.Server.{Server, text, line, tell, update_client}
use irc.Command.Common.{display_name}

abbrev pub max_failed_pass_attempts : ℕ
max_failed_pass_attempts = 3

abbrev pub failed_pass_attempts_of : ℕ → Server → ℕ
failed_pass_attempts_of fd s = elim (lookup fd s.clients) [
  | none ↦ 0
  | some c ↦ c.failed_pass_attempts
]

-- The third wrong password ends the connection.
unfoldable pub limit_attempts : ℕ → Server → Server
limit_attempts fd s =
    if leb max_failed_pass_attempts (failed_pass_attempts_of fd s)
    then update_client fd (mark_closing (text "too many invalid PASS attempts")) s
    else s

-- A wrong password is counted and reported.
unfoldable pub reject_password : ℕ → Client → Server → Server
reject_password fd who s = limit_attempts fd (
    tell fd (line (text ":server 464 " ∷ display_name who ∷ text " :Password incorrect\r\n" ∷ []))
      (update_client fd record_failed_pass_attempt s))

unfoldable pub execute_pass : ℕ → Client → List Text → Server → Server
execute_pass fd who params s =
    if who.pass_ok
    then tell fd
        (line (text ":server 462 " ∷ display_name who ∷ text " :You may not reregister\r\n" ∷ [])) s
    else if is_empty params || is_empty (get_or params 0 [])
    then tell fd
        (line
          (text ":server 461 " ∷ display_name who ∷ text " PASS :Not enough parameters\r\n" ∷ []))
        s
    else if text_eq (get_or params 0 []) s.password
    then update_client fd (set_pass_ok true) s
    else reject_password fd who s
