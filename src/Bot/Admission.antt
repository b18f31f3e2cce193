-- ===== src/Bot/Admission.antt =====
-- The login of the bot as the server receives it: the bytes of its three lines, in one chunk.
use irc.Base.{
  ℕ, suc, ◌≡◌, refl, ap, ◌∙◌, true, false, ◌||◌, [], ◌++◌, some, arith, length, length-append, ◌+◌,
  ◌≤◌, take_all, Option-cases, inl, inr,
}
use irc.Text.Search.{Free}
use irc.Text.{Text, lf, find_byte, int_key, text_key}
use irc.Map.{lookup}
use irc.Client.{
  Client, extract_line, append_to_recv_buffer, is_registered, send_message, set_pass_ok,
}
use irc.Client.Evolves.{send_message-Told}
use irc.Server.{Server, line, text, tell, update_client}
use irc.Command.Nick.{set_nick, is_taken_by_other}
use irc.Command.User.{set_user, welcome}
use irc.Arguments.{is_valid_password}
use irc.Bot.{bot_nickname, pass_line, nick_line, user_line}
use irc.Bot.Sending.{Sendable}
use irc.Bot.Exchange.{extract_line-Sendable}
use irc.Bot.Login.{valid-Password, pass_line-Sendable, process_line-pass_line}
use irc.Bot.Registration.{
  bot_user, enrolled, written, told, still_free, process_line-nick_line, process_line-user_line,
}
use irc.Loop.{bytes, read_lines, receive, receive_bytes, handle_client_read}
use irc.Bot.Reading.{framed, reading, left_by, line_taken, read_line_step, ended, went_on}

-- What the bot sends before it reads anything.
abbrev pub login_bytes : Text → Text
login_bytes password = framed (pass_line password) ++ (framed nick_line ++ (framed user_line ++ []))

nick_line-Sendable : Sendable nick_line
unfolding nick_line line text
nick_line-Sendable = record { some_byte = refl; short = omega arith; clean = refl }

user_line-Sendable : Sendable user_line
unfolding user_line line text
user_line-Sendable = record { some_byte = refl; short = omega arith; clean = refl }

-- What is left to read when the password, and when the nickname has been read.
abbrev after_pass : Text
after_pass = framed nick_line ++ (framed user_line ++ [])

abbrev after_nick : Text
after_nick = framed user_line ++ []

-- The client once it has been welcomed.
abbrev pub welcomed : Client → Client
welcomed who = send_message (welcome (enrolled who)) (enrolled who)

-- The read of a line leaves the nickname free.
left_free :
    (fd : ℕ) (l rest : Text) (c : Client) (s : Server)
    → Sendable l
    → lookup fd s.clients ≡ some (reading (framed l ++ rest) c)
    → is_taken_by_other fd bot_nickname s ≡ false
    → is_taken_by_other fd bot_nickname (left_by fd s) ≡ false
left_free fd l rest c s ok there free =
    still_free fd (λ b. (extract_line b).1) s
      (λ b here.
        let same : reading (framed l ++ rest) c ≡ b = ground (arith, there, here) in
        let taken =
          ap (λ p. p.1) (extract_line-Sendable l rest (reading (framed l ++ rest) c) ok refl) in
        rw (← same, taken) (refl, refl))
      free

-- The last line welcomes the client.
user_line_read :
    (fuel fd : ℕ) (c : Client) (s : Server)
    → c.pass_ok ≡ true
    → c.nick_set ≡ true
    → c.user_set ≡ false
    → lookup fd s.clients ≡ some (reading after_nick c)
    → lookup fd (read_lines (suc (suc fuel)) fd s).clients
      ≡ some (
          send_message
            (welcome (set_user bot_user (reading [] c)))
            (set_user bot_user (reading [] c)))
user_line_read fuel fd c s p n u there =
    let last : Client = reading [] c in
    let w = welcome (set_user bot_user last) in
    let identified : Server = update_client fd (set_user bot_user) (left_by fd s) in
    let one = line_taken fd user_line [] c s user_line-Sendable there in
    let told_so =
      told fd w identified (set_user bot_user last)
        (written fd (set_user bot_user) (left_by fd s) last one) in
    let step =
      read_line_step (suc fuel) fd user_line [] c s (tell fd w identified) user_line-Sendable there
        (process_line-user_line fd last (left_by fd s) one p n u) in
    ap (λ (x : Server). lookup fd x.clients) step
    ∙ ended fuel fd (tell fd w identified) (send_message w (set_user bot_user last)) told_so
        (send_message-Told w (set_user bot_user last)).evolves.recv_same

-- The line before it names the client.
nick_line_read :
    (fuel fd : ℕ) (c : Client) (s : Server)
    → c.pass_ok ≡ true
    → c.user_set ≡ false
    → c.dead ≡ false
    → c.closing ≡ false
    → is_taken_by_other fd bot_nickname s ≡ false
    → lookup fd s.clients ≡ some (reading after_pass c)
    → (t : Server) × (read_lines (suc fuel) fd s ≡ read_lines fuel fd t)
      × (lookup fd t.clients ≡ some (reading after_nick (set_nick bot_nickname c)))
nick_line_read fuel fd c s p u alive on free there =
    let one = line_taken fd nick_line after_nick c s nick_line-Sendable there in
    let free' = left_free fd nick_line after_nick c s nick_line-Sendable there free in
    let now = written fd (set_nick bot_nickname) (left_by fd s) (reading after_nick c) one in
    (
      update_client fd (set_nick bot_nickname) (left_by fd s),
      went_on fuel fd nick_line after_nick c (reading after_nick (set_nick bot_nickname c)) s _
          nick_line-Sendable there
          (process_line-nick_line fd (reading after_nick c) (left_by fd s) one p u free') now alive
          on,
      now,
    )

-- The three lines, from the buffer of the client.
read_lines-login :
    (fuel fd : ℕ) (who : Client) (s : Server)
    → is_valid_password (some s.password) ≡ true
    → Free 0 s.password
    → who.pass_ok ≡ false
    → who.user_set ≡ false
    → who.dead ≡ false
    → who.closing ≡ false
    → is_taken_by_other fd bot_nickname s ≡ false
    → lookup fd s.clients ≡ some (reading (login_bytes s.password) who)
    → lookup fd (read_lines (suc (suc (suc (suc fuel)))) fd s).clients
      ≡ some (welcomed (reading [] who))
unfolding update_client
read_lines-login fuel fd who s v z p u alive on free there =
    let ok = pass_line-Sendable s.password (valid-Password s.password v) z in
    let one = line_taken fd (pass_line s.password) after_pass who s ok there in
    let passed : Server = update_client fd (set_pass_ok true) (left_by fd s) in
    let c : Client = set_pass_ok true who in
    let now = written fd (set_pass_ok true) (left_by fd s) (reading after_pass who) one in
    let step =
      went_on (suc (suc (suc fuel))) fd (pass_line s.password) after_pass who (reading after_pass c)
        s passed ok there
        (process_line-pass_line fd (reading after_pass who) (left_by fd s) v z one p).1 now alive
        on in
    let free' =
      still_free fd (set_pass_ok true) (left_by fd s) (λ b l. (refl, refl))
        (left_free fd (pass_line s.password) after_pass who s ok there free) in
    let (t, step', now') = nick_line_read (suc (suc fuel)) fd c passed refl u alive on free' now in
    ap (λ (x : Server). lookup fd x.clients) (step ∙ step')
    ∙ user_line_read fuel fd (set_nick bot_nickname c) t refl refl u now'

-- There are more bytes than lines.
login_bytes_long :
    (password : Text) → (n : ℕ) × (suc (length (login_bytes password)) ≡ suc (suc (suc (suc n))))
unfolding pass_line line text
login_bytes_long password = (_, refl)

-- The chunk fits into an empty buffer, and holds a newline.
chunk_accepted :
    (chunk : Text) (i : ℕ) (c : Client)
    → length chunk ≤ 8192
    → find_byte lf chunk ≡ some i
    → c.recv_buffer ≡ []
    → append_to_recv_buffer (some chunk) (length chunk) c ≡ (true, reading chunk c)
unfolding append_to_recv_buffer
chunk_accepted chunk i c short found empty = ground (arith, short, found, empty, take_all chunk)

length-framed : (l : Text) → length (framed l) ≡ length l + 2
unfolding text
length-framed l = length-append l (text "\r\n")

login_bytes_short :
    (password : Text) → length (pass_line password) + 2 ≤ 512 → length (login_bytes password) ≤ 8192
login_bytes_short password h = omega (
  arith,
  h,
  length-framed (pass_line password),
  nick_line-Sendable.short,
  length-framed nick_line,
  user_line-Sendable.short,
  length-framed user_line,
  length-append (framed (pass_line password)) after_pass,
  length-append (framed nick_line) after_nick,
  length-append (framed user_line) [],
)

some_newline :
    (c : Client) (l : Text)
    → (extract_line c).0 ≡ some l
    → (i : ℕ) × (find_byte lf c.recv_buffer ≡ some i)
unfolding extract_line
some_newline c l e = elim (Option-cases (find_byte lf c.recv_buffer)) [
  | inl nothing ↦ absurd (ground (arith, nothing, e))
  | inr found ↦ found
]

login_bytes-accepted :
    (password : Text) (c : Client)
    → Sendable (pass_line password)
    → c.recv_buffer ≡ []
    → append_to_recv_buffer (some (login_bytes password)) (length (login_bytes password)) c
      ≡ (true, reading (login_bytes password) c)
login_bytes-accepted password c ok empty =
    let full : Client = reading (login_bytes password) c in
    let taken =
      ap (λ p. p.0) (extract_line-Sendable (pass_line password) after_pass full ok refl) in
    let (i, found) = some_newline full (pass_line password) taken in
    chunk_accepted (login_bytes password) i c (login_bytes_short password ok.short) found empty

-- The chunk of the three lines logs a client in that has sent nothing before.
pub lookup-handle_client_read :
    (fd : ℕ) (who : Client) (s : Server)
    → is_valid_password (some s.password) ≡ true
    → Free 0 s.password
    → lookup fd s.clients ≡ some who
    → who.pass_ok ≡ false
    → who.user_set ≡ false
    → who.dead ≡ false
    → who.closing ≡ false
    → who.recv_buffer ≡ []
    → is_taken_by_other fd bot_nickname s ≡ false
    → (lookup fd (handle_client_read fd (bytes (login_bytes s.password)) s).clients
        ≡ some (welcomed (reading [] who)))
      × (is_registered (enrolled who) ≡ true)
      × ((enrolled who).nickname ≡ bot_nickname)
unfolding handle_client_read receive receive_bytes update_client
lookup-handle_client_read fd who s v z there p u alive on empty free =
    let chunk = login_bytes s.password in
    let grow : Client → Client = λ b. (append_to_recv_buffer (some chunk) (length chunk) b).1 in
    let accepted =
      login_bytes-accepted s.password who
        (pass_line-Sendable s.password (valid-Password s.password v) z) empty in
    let stored = written fd grow s who there ∙ ap (λ p. some p.1) accepted in
    let still =
      still_free fd grow s
        (λ b here.
          let same : who ≡ b = ground (arith, there, here) in rw (← same, accepted) (refl, refl))
        free in
    let stopped : (who.dead || who.closing) ≡ false = ground (arith, alive, on) in
    let (n, enough) = login_bytes_long s.password in
    (
      rw (there, handle_client_read, stopped, receive, receive_bytes, accepted, enough)
          (read_lines-login n fd who (update_client fd grow s) v z p u alive on still stored),
      unfold is_registered in refl,
      refl,
    )
