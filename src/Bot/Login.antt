-- ===== src/Bot/Login.antt =====
-- The first lines of the bot, as the server understands them.
use irc.Base.{
  ℕ, ◌≤◌, ◌≡◌, refl, ap, ◌∙◌, true, false, not, [], ◌∷◌, ◌++◌, append-nil, List, some, arith,
  length, all, is_empty, get_or, ◌==◌,
}
use irc.Text.{Text, cr, lf, find_byte, int_key, text_key, text_eq, text_eq_refl}
use irc.Text.Search.{Free, find_byte-Free}
use irc.Text.Casemap.{to_upper_case}
use irc.Text.Tokens.{is_space}
use irc.Map.{lookup}
use irc.Parser.{parse}
use irc.Parser.RoundTrip.{parse-wire}
use irc.Client.{Client, is_control}
use irc.Server.{Server, text, line, update_client}
use irc.Command.Pass.{execute_pass}
use irc.Client.{set_pass_ok}
use irc.Command.Dispatch.{
  Command, pass, setup_commands, execute, is_named, run_command, process_message,
}
use irc.Command.Dispatch
use irc.Arguments.{is_valid_password}
use irc.Bot.{pass_line}
use irc.Bot.Sending.{Sendable}

-- What a password that the command line accepts is, besides a C string without NUL.
pub record Password (pw : Text) : Type 0 where
  pub some_byte : is_empty pw ≡ false
  pub short : length pw ≤ 504
  pub no_cr : Free cr pw
  pub no_lf : Free lf pw

pub valid-Password : (pw : Text) → is_valid_password (some pw) ≡ true → Password pw
unfolding is_valid_password
valid-Password pw v = record {
  some_byte = ground arith;
  short = ground arith;
  no_cr = find_byte-Free cr pw (ground arith);
  no_lf = find_byte-Free lf pw (ground arith);
}

pub last-Free :
    (b x : ℕ) (s : Text) → (x == b) ≡ false → Free b s → (get_or (x ∷ s) (length s) 0 == b) ≡ false
last-Free b x [] n h = n
last-Free b x (c ∷ s) n h = last-Free b c s (ground arith) (ground arith)

pub uncontrolled :
    (s : Text) → Free 0 s → Free cr s → Free lf s → all (λ b. not (is_control b)) s ≡ true
uncontrolled [] z r n = refl
uncontrolled (c ∷ s) z r n = ground (arith, uncontrolled s)

pass_line_lem : (pw : Text) → pass_line pw ≡ text "PASS :" ++ pw
unfolding pass_line line
pass_line_lem pw = ap (λ t. text "PASS :" ++ t) (append-nil pw)

pub pass_line-Sendable : (pw : Text) → Password pw → Free 0 pw → Sendable (pass_line pw)
pass_line-Sendable pw p z = rw (pass_line_lem pw) (
    unfold text in
    record {
      some_byte = refl;
      short = omega (arith, p.short);
      clean = uncontrolled pw z p.no_cr p.no_lf;
    })

parse-pass_line :
    (pw : Text)
    → Password pw
    → parse (pass_line pw) ≡ record { prefix = []; command = text "PASS"; params = pw ∷ [] }
unfolding text to_upper_case is_space
parse-pass_line pw p = rw (pass_line_lem pw) (
    parse-wire [] (text "PASS") [] pw refl ((refl, refl), refl) tt
      (last-Free cr b':' pw refl p.no_cr))

right_password :
    (fd : ℕ) (who : Client) (s : Server)
    → who.pass_ok ≡ false
    → is_empty s.password ≡ false
    → execute_pass fd who (s.password ∷ []) s ≡ update_client fd (set_pass_ok true) s
unfolding execute_pass
right_password fd who s u n = ground (arith, text_eq_refl s.password)

pass_command : lookup (text "PASS") setup_commands ≡ some pass
unfolding setup_commands text irc.Map.lookup irc.Map.insert text_eq irc.Text.text_lt
pass_command = refl

process_pass :
    (fd : ℕ) (who : Client) (params : List Text) (s : Server)
    → process_message fd who (record { prefix = []; command = text "PASS"; params = params }) s
      ≡ execute_pass fd who params s
unfolding process_message run_command execute text text_eq
process_pass fd who params s = rw (pass_command, process_message)

-- The password of the server, if the command line accepts it, is one that the bot can send in one
-- line; and this line gives the password to a client of the server that has not passed yet.
pub process_line-pass_line :
    (fd : ℕ) (who : Client) (s : Server)
    → is_valid_password (some s.password) ≡ true
    → Free 0 s.password
    → lookup fd s.clients ≡ some who
    → who.pass_ok ≡ false
    → Sendable (pass_line s.password)
      × (Dispatch.process_line fd (pass_line s.password) s ≡ update_client fd (set_pass_ok true) s)
process_line-pass_line fd who s v z there u =
    let p = valid-Password s.password v in
    (
      pass_line-Sendable s.password p z,
      unfold Dispatch.process_line in
          rw (there, parse-pass_line s.password p, Dispatch.process_line)
            (process_pass fd who (s.password ∷ []) s ∙ right_password fd who s u p.some_byte),
    )
