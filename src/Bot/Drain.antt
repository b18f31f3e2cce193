-- ===== src/Bot/Drain.antt =====
-- src/bot/Bot.cpp: the loops over chunks and lines, and the lines that they process.
use mathlib.Core.Path.{subst}
use irc.Base.{
  ℕ, zero, suc, ◌-◌, ◌<◌, ◌≡◌, refl, ap, sym, ◌∙◌, ◌++◌, append-nil, append_assoc, List, [], ◌∷◌,
  none, some, inl, inr, arith, length, ltb, Bool-cases, ◌||◌,
}
use irc.Text.{Text, lf}
use irc.Text.Search.{Free}
use irc.Bot.{
  Bot, max_bot_message_size, max_receive_buffer_size, extract_line, process_line, process_lines,
  Arrival, closed_by_server, recv_interrupted, recv_failed, received, receive_chunk,
  receive_messages,
}
use irc.Bot.Whole.{
  Result-cases, then-done, then-after, process_each-first, whole_lines, last_part, process_each,
  arrived, whole_lines-Free, whole_lines-append, extract_line_first, process_each-append,
}
use irc.Bot.Lines.{extract_line_idle, extract_line_shrinks}
use irc.Bot.Socket.{Wire, Result, done, raised, blocked, Io, ◌>>=◌}

-- The receive buffer holds no complete line, and less than a message of the maximal size.
abbrev pub Rested : Bot → Type 0
Rested b = Free lf b.receive_buffer × (length b.receive_buffer < max_bot_message_size)

-- The state of the bot if the action has returned one.
abbrev pub Returns : (Bot → Type 0) → Result Bot → Type 0
Returns P (done b) = P b
Returns P (raised why) = Unit
Returns P blocked = Unit

-- An action in front of one that returns only what it should.
then-Returns :
    {A : Type 0} (P : Bot → Type 0) (m : Io A) (f : A → Io Bot) (w : Wire)
    → ((a : A) (w' : Wire) → (m w).0 ≡ done a → Returns P (f a w').0)
    → Returns P ((m >>= f) w).0
then-Returns P m f w h = elim (Result-cases (m w).0) [
  | inl (a, e) ↦ rw (e, ◌>>=◌) (h a (m w).1 e)
  | inr (inl (why, e)) ↦ rw (e, ◌>>=◌) tt
  | inr (inr e) ↦ rw (e, ◌>>=◌) tt
]

process_lines-Rested :
    (fuel : ℕ) (bot : Bot) (w : Wire)
    → length bot.receive_buffer < fuel
    → Returns Rested (process_lines fuel bot w).0
unfolding process_lines
process_lines-Rested zero bot w h = absurd (omega arith)
process_lines-Rested (suc fuel) bot w h = elim (Result-cases (extract_line bot).0) [
  | inl (none, e) ↦
      let (same, free, short) = extract_line_idle bot e in rw (e, same, process_lines) (free, short)
  | inl (some m, e) ↦
      rw (e, process_lines)
        (then-Returns Rested (process_line (extract_line bot).1.channel m)
          (λ _. process_lines fuel (extract_line bot).1) w
          (λ a w' _.
            process_lines-Rested fuel (extract_line bot).1 w'
              (omega (arith, extract_line_shrinks bot {line = m} e))))
  | inr (inl (why, e)) ↦ rw (e, process_lines) tt
  | inr (inr e) ↦ rw (e, process_lines) tt
]

pub receive_chunk-Rested :
    (chunk : Text) (bot : Bot) (w : Wire) → Returns Rested (receive_chunk chunk bot w).0
unfolding receive_chunk
receive_chunk-Rested chunk bot w =
    elim (Bool-cases (
      ltb max_receive_buffer_size (length bot.receive_buffer)
      || ltb (max_receive_buffer_size - length bot.receive_buffer) (length chunk))) [
        | inl full ↦ rw (full, receive_chunk) tt
        | inr fits ↦ rw (fits, receive_chunk) (process_lines-Rested _ _ w (omega arith))
      ]

-- The buffer has no complete line left, whatever arrives.
receive_messages-Rested :
    (arrivals : List Arrival) (bot : Bot) (w : Wire)
    → Rested bot
    → Returns Rested (receive_messages arrivals bot w).0
unfolding receive_messages
receive_messages-Rested [] bot w r = tt
receive_messages-Rested (closed_by_server ∷ more) bot w r = r
receive_messages-Rested (recv_interrupted ∷ more) bot w r = receive_messages-Rested more bot w r
receive_messages-Rested (recv_failed why ∷ more) bot w r = tt
receive_messages-Rested (received chunk ∷ more) bot w r =
    then-Returns Rested (receive_chunk chunk bot) (receive_messages more) w (λ b w' e.
      receive_messages-Rested more b w' (let h = receive_chunk-Rested chunk bot w in rw e at h))

-- From `bot` at `w` to `b` at `w'`, by the given bytes: the lines that they complete have been
-- processed in their order, all of them and nothing else, what is behind the last newline is left.
pub record Read (bot : Bot) (bytes : Text) (w : Wire) (b : Bot) (w' : Wire) : Type 0 where
  pub processed : process_each bot.channel (whole_lines [] bytes) w ≡ (done tt, w')
  pub left : b.receive_buffer ≡ last_part [] bytes
  pub channel_same : b.channel ≡ bot.channel

abbrev returned : Bot → Wire → Result Bot × Wire
returned b w = (done b, w)

abbrev process_each_at : Text → Wire → List Text → Result (Unit {0}) × Wire
process_each_at channel w ms = process_each channel ms w

process_lines-Read :
    (fuel : ℕ) (bot : Bot) (w : Wire) {b : Bot} {w' : Wire}
    → length bot.receive_buffer < fuel
    → process_lines fuel bot w ≡ (done b, w')
    → Read bot bot.receive_buffer w b w'
unfolding process_lines process_each
process_lines-Read zero bot w h e = absurd (omega arith)
process_lines-Read (suc fuel) bot w {b} {w'} h e = elim (Result-cases (extract_line bot).0) [
  | inl (none, i) ↦
      let (same, free, short) = extract_line_idle bot i in
      let (no_line, part) = whole_lines-Free [] bot.receive_buffer free in
      let k : returned bot w ≡ (done b, w') = rw (i, same, process_lines) at e in
      let kept : bot ≡ b = ground (arith, k) in
      record {
        processed = rw no_line (ap (λ (p : Result Bot × Wire). (done tt, p.1)) k);
        left = rw (← kept, part) refl;
        channel_same = rw (← kept) refl;
      }
  | inl (some m, i) ↦
      let left = (extract_line bot).1 in
      let (line, part, same) = extract_line_first bot m i in
      let (a, first, others) =
        then-done (process_line left.channel m) (λ _. process_lines fuel left) w
          (rw (i, process_lines) at e) in
      let r =
        process_lines-Read fuel left _ (omega (arith, h, extract_line_shrinks bot {line = m} i))
          others in
      record {
        processed =
            ap (process_each_at bot.channel w) line
            ∙ ap (λ c. process_each c (m ∷ whole_lines [] left.receive_buffer) w) (sym same)
            ∙ process_each-first left.channel m (whole_lines [] left.receive_buffer) w first
            ∙ r.processed;
        left = r.left ∙ sym part;
        channel_same = r.channel_same ∙ same;
      }
  | inr (inl (why, i)) ↦ absurd (let k = rw (i, process_lines) at e in cc)
  | inr (inr i) ↦ absurd (let k = rw (i, process_lines) at e in cc)
]

pub receive_chunk-Read :
    (chunk : Text) (bot : Bot) (w : Wire) {b : Bot} {w' : Wire}
    → receive_chunk chunk bot w ≡ (done b, w')
    → Read bot (bot.receive_buffer ++ chunk) w b w'
unfolding receive_chunk
receive_chunk-Read chunk bot w e =
    elim (Bool-cases (
      ltb max_receive_buffer_size (length bot.receive_buffer)
      || ltb (max_receive_buffer_size - length bot.receive_buffer) (length chunk))) [
        | inl full ↦ absurd (let k = rw (full, receive_chunk) at e in cc)
        | inr fits ↦
            let grown : Bot = record bot { receive_buffer = bot.receive_buffer ++ chunk } in
            let r =
              process_lines-Read (suc (length grown.receive_buffer)) grown w (omega arith)
                (rw (fits, receive_chunk) at e) in
            record { processed = r.processed; left = r.left; channel_same = r.channel_same }
      ]

-- What is left of a first part goes in front of the second.
Read-trans :
    (bot mid b : Bot) (s t : Text) (w v w' : Wire)
    → Read bot s w mid v
    → Free lf mid.receive_buffer
    → Read mid (mid.receive_buffer ++ t) v b w'
    → Read bot (s ++ t) w b w'
Read-trans bot mid b s t w v w' p free q =
    let (lines, rest) = whole_lines-append [] s t in
    let (lines', rest') = whole_lines-append [] mid.receive_buffer t in
    let (no_line, part) = whole_lines-Free [] mid.receive_buffer free in
    let same : whole_lines [] (mid.receive_buffer ++ t) ≡ whole_lines (last_part [] s) t =
      lines'
      ∙ ap (λ ls. ls ++ whole_lines (last_part [] mid.receive_buffer) t) no_line
      ∙ ap (λ o. whole_lines o t) (part ∙ p.left) in
    record {
      processed =
          ap (process_each_at bot.channel w) (lines ∙ ap (λ ls. whole_lines [] s ++ ls) (sym same))
          ∙ process_each-append bot.channel (whole_lines [] s)
              (whole_lines [] (mid.receive_buffer ++ t)) w
          ∙ then-after (process_each bot.channel (whole_lines [] s))
              (λ _. process_each bot.channel (whole_lines [] (mid.receive_buffer ++ t))) w
              p.processed
          ∙ ap (λ c. process_each c (whole_lines [] (mid.receive_buffer ++ t)) v)
              (sym p.channel_same)
          ∙ q.processed;
      left = q.left ∙ rest' ∙ ap (λ o. last_part o t) (part ∙ p.left) ∙ sym rest;
      channel_same = q.channel_same ∙ p.channel_same;
    }

idle-Read :
    (bot : Bot) (w : Wire)
    → Free lf bot.receive_buffer
    → Read bot (bot.receive_buffer ++ []) w bot w
unfolding process_each
idle-Read bot w free =
    let (no_line, part) = whole_lines-Free [] bot.receive_buffer free in
    rw (append-nil bot.receive_buffer) (record {
      processed = ap (process_each_at bot.channel w) no_line;
      left = sym part;
      channel_same = refl;
    })

-- Whatever arrives and whatever `send` answers: if the bot has no complete line in its buffer and
-- then ends its loop over the chunks without an exception, then the lines that the bytes in its
-- buffer and those that have arrived complete, however they were cut into chunks, have been
-- processed, each once, in their order and with what follows from them only; what is behind the last
-- newline is in its buffer, and less than 512 bytes.
pub receive_messages-Read :
    (arrivals : List Arrival) (bot : Bot) (w : Wire) {b : Bot} {w' : Wire}
    → Rested bot
    → receive_messages arrivals bot w ≡ (done b, w')
    → Read bot (bot.receive_buffer ++ arrived arrivals) w b w' × Rested b
unfolding receive_messages arrived
receive_messages-Read [] bot w r e = absurd cc
receive_messages-Read (closed_by_server ∷ more) bot w {b} {w'} r e =
    let same : bot ≡ b = ground (arith, e) in
    let unmoved : w ≡ w' = ap (λ (p : Result Bot × Wire). p.1) e in
    (
      subst (λ c. Read bot (bot.receive_buffer ++ []) w c w') same
          (subst (λ v. Read bot (bot.receive_buffer ++ []) w bot v) unmoved (idle-Read bot w r.0)),
      subst Rested same r,
    )
receive_messages-Read (recv_interrupted ∷ more) bot w r e = receive_messages-Read more bot w r e
receive_messages-Read (recv_failed why ∷ more) bot w r e = absurd cc
receive_messages-Read (received chunk ∷ more) bot w {b} {w'} r e =
    let (mid, first, others) = then-done (receive_chunk chunk bot) (receive_messages more) w e in
    let rested =
      (let h = receive_chunk-Rested chunk bot w in
        rw (ap (λ (p : Result Bot × Wire). p.0) first) at h) in
    let (rest, idle) = receive_messages-Read more mid (receive_chunk chunk bot w).1 rested others in
    (
      subst (λ s. Read bot s w b w') (append_assoc bot.receive_buffer chunk (arrived more))
          (Read-trans bot mid b (bot.receive_buffer ++ chunk) (arrived more) w
            (receive_chunk chunk bot w).1 w' (receive_chunk-Read chunk bot w first) rested.0 rest),
      idle,
    )
