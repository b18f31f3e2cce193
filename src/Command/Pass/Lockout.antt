-- ===== src/Command/Pass/Lockout.antt =====
-- src/commands/Pass.cpp: what wrong passwords lead to.
use irc.Base.{
  ℕ, suc, ◌≡◌, ◌≢◌, ◌≤◌, ◌<◌, true, false, ◌||◌, List, [], ◌∷◌, some, arith, get_or, is_empty, leb,
  Bool-cases, inl, inr,
}
use irc.Text.{Text, text_eq, text_eq_iff, int_key}
use irc.Map.{lookup}
use irc.Map.Laws.{lookup-modify}
use irc.Client.{Client, uint_max, record_failed_pass_attempt, mark_closing, send_message}
use irc.Client.Evolves.{send_message-Told}
use irc.Command.Common.{display_name}
use irc.Server.{Server, text, line, tell, update_client}
use irc.Command.Pass.{
  max_failed_pass_attempts, limit_attempts, reject_password, execute_pass, failed_pass_attempts_of,
}

updated :
    (fd : ℕ) (f : Client → Client) (s : Server) {c : Client}
    → lookup fd s.clients ≡ some c
    → lookup fd (update_client fd f s).clients ≡ some (f c)
unfolding update_client
updated fd f s e = ground (arith, lookup-modify fd fd f s.clients)

-- The client is still there, with one attempt more and no more trusted; from the third on it is
-- closing or dead.
pub record Counted (who c : Client) : Type 0 where
  pub counted : c.failed_pass_attempts ≡ suc who.failed_pass_attempts
  pub no_trust : c.pass_ok ≡ who.pass_ok
  pub locked_out : 3 ≤ c.failed_pass_attempts → (c.dead || c.closing) ≡ true

limit_attempts-Counted :
    (fd : ℕ) (who d : Client) (t : Server)
    → lookup fd t.clients ≡ some d
    → d.failed_pass_attempts ≡ suc who.failed_pass_attempts
    → d.pass_ok ≡ who.pass_ok
    → (c : Client) × (lookup fd (limit_attempts fd t).clients ≡ some c) × Counted who c
unfolding limit_attempts
limit_attempts-Counted fd who d t there n p =
    let attempts : failed_pass_attempts_of fd t ≡ d.failed_pass_attempts =
      rw (there, failed_pass_attempts_of) in
    elim (Bool-cases (leb max_failed_pass_attempts (failed_pass_attempts_of fd t))) [
      | inl many ↦ (
        mark_closing (text "too many invalid PASS attempts") d,
        rw (many, limit_attempts)
            (updated fd (mark_closing (text "too many invalid PASS attempts")) t there),
        record {
          counted = unfold mark_closing in ground arith;
          no_trust = unfold mark_closing in ground arith;
          locked_out = λ h. unfold mark_closing in ground arith;
        },
      )
      | inr few ↦ (
        d,
        rw (few, limit_attempts) there,
        record { counted = n; no_trust = p; locked_out = λ h. absurd (ground arith) },
      )
    ]

updated_by_tell :
    (fd : ℕ) (m : Text) (s : Server) {c : Client}
    → lookup fd s.clients ≡ some c
    → lookup fd (tell fd m s).clients ≡ some (send_message m c)
unfolding tell
updated_by_tell fd m s e = updated fd (send_message m) s e

reject_password-Counted :
    (fd : ℕ) (who : Client) (s : Server)
    → lookup fd s.clients ≡ some who
    → who.failed_pass_attempts < uint_max
    → (c : Client) × (lookup fd (reject_password fd who s).clients ≡ some c) × Counted who c
unfolding reject_password
reject_password-Counted fd who s there room =
    let m : Text =
      line (text ":server 464 " ∷ display_name who ∷ text " :Password incorrect\r\n" ∷ []) in
    let counted : Client = record_failed_pass_attempt who in
    let told = send_message-Told m counted in
    limit_attempts-Counted fd who (send_message m counted)
      (tell fd m (update_client fd record_failed_pass_attempt s))
      (updated_by_tell fd m (update_client fd record_failed_pass_attempt s)
        (updated fd record_failed_pass_attempt s there))
      (unfold record_failed_pass_attempt in ground (arith, told.attempts_same))
      (unfold record_failed_pass_attempt in ground (arith, told.pass_same))

unequal : (a b : Text) → a ≢ b → text_eq a b ≡ false
unequal a b h = ground (arith, text_eq_iff a b)

wrong_password :
    (fd : ℕ) (who : Client) (params : List Text) (s : Server)
    → who.pass_ok ≡ false
    → is_empty params ≡ false
    → is_empty (get_or params 0 []) ≡ false
    → get_or params 0 [] ≢ s.password
    → execute_pass fd who params s ≡ reject_password fd who s
unfolding execute_pass
wrong_password fd who params s u p b w = ground (arith, unequal (get_or params 0 []) s.password w)

-- PASS with a wrong password that is not empty, from a client of the server that has not passed
-- yet and whose attempts are below the largest `unsigned int`: the client is still there, its
-- attempts are one more, it has not passed, and if they are three or more its connection is
-- closing or dead.
pub execute_pass-Counted :
    (fd : ℕ) (who : Client) (params : List Text) (s : Server)
    → lookup fd s.clients ≡ some who
    → who.pass_ok ≡ false
    → is_empty params ≡ false
    → is_empty (get_or params 0 []) ≡ false
    → get_or params 0 [] ≢ s.password
    → who.failed_pass_attempts < uint_max
    → (c : Client) × (lookup fd (execute_pass fd who params s).clients ≡ some c) × Counted who c
execute_pass-Counted fd who params s there untrusted some_param no_blank wrong room =
    rw (wrong_password fd who params s untrusted some_param no_blank wrong)
      (reject_password-Counted fd who s there room)
