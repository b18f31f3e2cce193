-- ===== src/Bot/Reading.antt =====
-- How the server reads the lines of one client, one round of its loop after the other.
use irc.Base.{
  ℕ, suc, ◌≡◌, refl, ap, ◌∙◌, false, [], ◌++◌, none, some, arith, Bool-cases, inl, inr,
  if◌then◌else◌,
}
use irc.Text.{Text, find_byte, int_key, text_key}
use irc.Map.{lookup}
use irc.Client.{Client, extract_line}
use irc.Server.{Server, text, update_client}
use irc.Command.Dispatch
use irc.Bot.Sending.{Sendable}
use irc.Bot.Exchange.{extract_line-Sendable}
use irc.Bot.Registration.{written}
use irc.Loop.{is_stopped, read_lines}

abbrev pub framed : Text → Text
framed l = l ++ text "\r\n"

-- The client has that much left to read.
abbrev pub reading : Text → Client → Client
reading rest c = record c { recv_buffer = rest }

abbrev pub left_by : ℕ → Server → Server
left_by fd s = update_client fd (λ b. (extract_line b).1) s

pub line_taken :
    (fd : ℕ) (l rest : Text) (c : Client) (s : Server)
    → Sendable l
    → lookup fd s.clients ≡ some (reading (framed l ++ rest) c)
    → lookup fd (left_by fd s).clients ≡ some (reading rest c)
line_taken fd l rest c s ok there =
    written fd (λ b. (extract_line b).1) s (reading (framed l ++ rest) c) there
    ∙ ap (λ p. some p.1) (extract_line-Sendable l rest (reading (framed l ++ rest) c) ok refl)

-- One round of the loop over the lines.
pub read_line_step :
    (fuel fd : ℕ) (l rest : Text) (c : Client) (s t : Server)
    → Sendable l
    → lookup fd s.clients ≡ some (reading (framed l ++ rest) c)
    → Dispatch.process_line fd l (left_by fd s) ≡ t
    → read_lines (suc fuel) fd s ≡ (if is_stopped fd t then t else read_lines fuel fd t)
unfolding read_lines
read_line_step fuel fd l rest c s t ok there done =
    let found =
      ap (λ p. p.0) (extract_line-Sendable l rest (reading (framed l ++ rest) c) ok refl) in
    rw (there, found, read_lines, done) refl

-- The client that is read from goes on.
going :
    (fd : ℕ) (t : Server) (c : Client)
    → lookup fd t.clients ≡ some c
    → c.dead ≡ false
    → c.closing ≡ false
    → is_stopped fd t ≡ false
going fd t c there a o = ground (arith, there)

nothing_taken :
    (c : Client) → c.recv_buffer ≡ [] → ((extract_line c).0 ≡ none) × ((extract_line c).1 ≡ c)
unfolding extract_line find_byte
nothing_taken c e = (ground (arith, e), ground (arith, e))

-- A client with an empty buffer, whether or not it is stopped: the loop over the lines ends.
pub ended :
    (fuel fd : ℕ) (t : Server) (c : Client)
    → lookup fd t.clients ≡ some c
    → c.recv_buffer ≡ []
    → lookup fd (if is_stopped fd t then t else read_lines (suc fuel) fd t).clients ≡ some c
unfolding read_lines
ended fuel fd t c there e = elim (Bool-cases (is_stopped fd t)) [
  | inl stopped ↦ rw stopped there
  | inr on ↦
      let (idle, same) = nothing_taken c e in
      rw (on, there, idle, read_lines)
        (written fd (λ b. (extract_line b).1) t c there ∙ ap some same)
]

-- A line after which the client goes on.
pub went_on :
    (fuel fd : ℕ) (l rest : Text) (c d : Client) (s t : Server)
    → Sendable l
    → lookup fd s.clients ≡ some (reading (framed l ++ rest) c)
    → Dispatch.process_line fd l (left_by fd s) ≡ t
    → lookup fd t.clients ≡ some d
    → d.dead ≡ false
    → d.closing ≡ false
    → read_lines (suc fuel) fd s ≡ read_lines fuel fd t
went_on fuel fd l rest c d s t ok there done now a o =
    read_line_step fuel fd l rest c s t ok there done ∙ rw (going fd t d now a o) refl
