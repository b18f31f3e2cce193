-- ===== src/Bot/Sending.antt =====
-- `sendLine`: what is on the wire when it ends, and that it ends.
use irc.Base.{
  ℕ, zero, suc, ◌+◌, ◌-◌, ◌≤◌, ◌≡◌, refl, sym, ap, ◌∙◌, true, false, not, List, [], ◌∷◌, ◌++◌,
  append-nil, append_assoc, ◌||◌, inl, inr, arith, length, length-append, length-drop, take, drop,
  all, is_empty, take-append-drop, take-length-append, get_or-length-append, ltb, Bool-cases,
  get_or,
}
use irc.Text.{Text, cr, lf}
use irc.Client.{is_control, is_valid_outbound_message}
use irc.Server.{text}
use irc.Bot.{send_rest, send_line, max_bot_message_size}
use irc.Bot.Socket.{Answer, took, interrupted, failed, Wire, Result, done, raised, blocked}

-- The bytes on the wire, and those that are not sent yet, when an action of sending `rest` has
-- ended with this result.
pub record Part (rest before : Text) (r : Result (Unit {0})) (after : Text) : Type 0 where
  pub unsent : Text
  pub kept : after ++ unsent ≡ before ++ rest
  pub whole : r ≡ done tt → unsent ≡ []

nothing_to_send : (sent : Text) → Part [] sent (done tt) sent
nothing_to_send sent = record { unsent = []; kept = refl; whole = λ _. refl }

given_up :
    (rest sent : Text) (r : Result (Unit {0})) → (r ≡ done tt → rest ≡ []) → Part rest sent r sent
given_up rest sent r h = record { unsent = rest; kept = refl; whole = h }

taken-Part :
    (n : ℕ) (rest sent after : Text) (r : Result (Unit {0}))
    → Part (drop n rest) (sent ++ take n rest) r after
    → Part rest sent r after
taken-Part n rest sent after r p = record {
  unsent = p.unsent;
  kept =
      p.kept
      ∙ append_assoc sent (take n rest) (drop n rest)
      ∙ ap (◌++◌ sent) (take-append-drop n rest);
  whole = p.whole;
}

send_rest-Part :
    (answers : List Answer) (rest sent : Text)
    → Part rest sent (send_rest answers rest sent).0 (send_rest answers rest sent).1.sent
unfolding send_rest
send_rest-Part [] [] sent = nothing_to_send sent
send_rest-Part [] (c ∷ rest) sent = given_up (c ∷ rest) sent blocked (λ e. cc)
send_rest-Part (interrupted ∷ more) [] sent = nothing_to_send sent
send_rest-Part (interrupted ∷ more) (c ∷ rest) sent = send_rest-Part more (c ∷ rest) sent
send_rest-Part (failed why ∷ more) [] sent = nothing_to_send sent
send_rest-Part (failed why ∷ more) (c ∷ rest) sent = given_up (c ∷ rest) sent (raised _) (λ e. cc)
send_rest-Part (took zero ∷ more) [] sent = nothing_to_send sent
send_rest-Part (took zero ∷ more) (c ∷ rest) sent = given_up (c ∷ rest) sent (raised _) (λ e. cc)
send_rest-Part (took (suc n) ∷ more) [] sent = nothing_to_send sent
send_rest-Part (took (suc n) ∷ more) (c ∷ rest) sent =
    taken-Part (suc n) (c ∷ rest) sent _ _
      (send_rest-Part more (drop (suc n) (c ∷ rest)) (sent ++ take (suc n) (c ∷ rest)))

-- A line that the bot sends: not empty, at most 510 bytes, and no NUL, CR or LF.
pub record Sendable (message : Text) : Type 0 where
  pub some_byte : is_empty message ≡ false
  pub short : length message + 2 ≤ max_bot_message_size
  pub clean : all (λ b. not (is_control b)) message ≡ true

-- A line that the bot sends is a message that the server would send.
Sendable-valid :
    (message : Text) → Sendable message → is_valid_outbound_message (message ++ text "\r\n") ≡ true
unfolding is_valid_outbound_message text
Sendable-valid message s =
    let ending : Text = cr ∷ lf ∷ [] in
    let whole : Text = message ++ ending in
    let size : length whole ≡ length message + 2 = length-append message ending in
    let body : length whole - 2 ≡ length message = omega (arith, size) in
    let before_last : length whole - 2 ≡ length message + 0 = omega (arith, size) in
    let last : length whole - 1 ≡ length message + 1 = omega (arith, size) in
    ground (
      arith,
      size,
      ap (λ k. get_or whole k 0) before_last ∙ get_or-length-append message ending 0 0,
      ap (λ k. get_or whole k 0) last ∙ get_or-length-append message ending 1 0,
      ap (λ k. take k whole) body ∙ take-length-append message ending,
    )

-- `sendLine`, whatever `send` answers: if it returns, the line was a sendable one, and the bytes
-- on the wire are those before, the line, CR and LF; and if it does not, what has been added is a
-- beginning of these.
pub send_line-Part :
    (message : Text) (w : Wire)
    → Part (message ++ text "\r\n") w.sent (send_line message w).0 (send_line message w).1.sent
      × ((send_line message w).0 ≡ done tt → Sendable message)
unfolding send_line
send_line-Part message w =
    elim (Bool-cases (is_empty message || ltb max_bot_message_size (length message + 2))) [
      | inl misfit ↦ rw (misfit, send_line) (given_up _ w.sent (raised _) (λ e. cc), λ e. cc)
      | inr fits ↦ elim (Bool-cases (all (λ b. not (is_control b)) message)) [
        | inr control ↦
            rw (fits, control, send_line) (given_up _ w.sent (raised _) (λ e. cc), λ e. cc)
        | inl clean ↦
            rw (fits, clean, send_line)
              (
                send_rest-Part w.answers (message ++ text "\r\n") w.sent,
                λ e. record { some_byte = ground arith; short = ground arith; clean = clean },
              )
      ]
    ]

-- The kernel goes on to take bytes: so often, with interruptions between.
abbrev pub takes : List Answer → ℕ
takes [] = 0
takes (took zero ∷ more) = 0
takes (took (suc n) ∷ more) = suc (takes more)
takes (interrupted ∷ more) = takes more
takes (failed why ∷ more) = 0

send_rest_done :
    (answers : List Answer) (rest sent : Text)
    → length rest ≤ takes answers
    → (send_rest answers rest sent).0 ≡ done tt
unfolding send_rest
send_rest_done [] [] sent h = refl
send_rest_done [] (c ∷ rest) sent h = absurd (omega arith)
send_rest_done (interrupted ∷ more) [] sent h = refl
send_rest_done (interrupted ∷ more) (c ∷ rest) sent h = send_rest_done more (c ∷ rest) sent h
send_rest_done (failed why ∷ more) [] sent h = refl
send_rest_done (failed why ∷ more) (c ∷ rest) sent h = absurd (omega arith)
send_rest_done (took zero ∷ more) [] sent h = refl
send_rest_done (took zero ∷ more) (c ∷ rest) sent h = absurd (omega arith)
send_rest_done (took (suc n) ∷ more) [] sent h = refl
send_rest_done (took (suc n) ∷ more) (c ∷ rest) sent h =
    send_rest_done more (drop (suc n) (c ∷ rest)) (sent ++ take (suc n) (c ∷ rest))
      (omega (arith, length-drop n rest))

accepted :
    (message : Text) (w : Wire)
    → Sendable message
    → send_line message w ≡ send_rest w.answers (message ++ text "\r\n") w.sent
unfolding send_line
accepted message w s = ground (arith, s.some_byte, s.short, s.clean)

pub Part-whole :
    (rest before after : Text) (r : Result (Unit {0}))
    → Part rest before r after
    → r ≡ done tt
    → after ≡ before ++ rest
Part-whole rest before after r p e =
    sym (append-nil after) ∙ ap (λ u. after ++ u) (sym (p.whole e)) ∙ p.kept

-- A sendable line is sent whole if `send` takes some bytes at least as often as the message has
-- bytes, however often it is interrupted between.
pub send_line_done :
    (message : Text) (w : Wire)
    → Sendable message
    → length message + 2 ≤ takes w.answers
    → ((send_line message w).0 ≡ done tt)
      × ((send_line message w).1.sent ≡ w.sent ++ (message ++ text "\r\n"))
      × (is_valid_outbound_message (message ++ text "\r\n") ≡ true)
send_line_done message w s h =
    let ending : Text = text "\r\n" in
    let ok =
      send_rest_done w.answers (message ++ ending) w.sent
        (unfold text in omega (arith, length-append message ending)) in
    rw (accepted message w s) (
      ok,
      Part-whole (message ++ ending) w.sent _ _
          (send_rest-Part w.answers (message ++ ending) w.sent) ok,
      Sendable-valid message s,
    )
