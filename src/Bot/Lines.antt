-- ===== src/Bot/Lines.antt =====
-- The lines that the bot takes from its buffer, compared with those that the server takes.
use irc.Base.{◌+◌, ◌<◌, ◌≡◌, ◌↔◌, none, some, inl, inr, arith, length, length-drop, Option-cases}
use irc.Text.{Text, lf, find_byte}
use irc.Text.Search.{Free, find_byte-Found, find_byte-Free}
use irc.Client.{Client, max_irc_message_size, is_forbidden}
use irc.Client
use irc.Bot.{Bot, max_bot_message_size, extract_line}
use irc.Bot.Socket.{done}

-- From the same bytes, the bot and the server take the same lines, and then leave the same bytes
-- behind them.
pub extract_line_agrees :
    (b : Bot) (c : Client) (line : Text)
    → b.receive_buffer ≡ c.recv_buffer
    → (((extract_line b).0 ≡ done (some line)) ↔ ((Client.extract_line c).0 ≡ some line))
      × ((extract_line b).0 ≡ done (some line)
          → (extract_line b).1.receive_buffer ≡ (Client.extract_line c).1.recv_buffer)
unfolding extract_line Client.extract_line
extract_line_agrees b c line e = ground (arith, e)

-- Where the bot takes no line and goes on, its buffer holds no newline and less than a message of
-- the maximal size, and it is left as it was.
pub extract_line_idle :
    (b : Bot)
    → (extract_line b).0 ≡ done none
    → ((extract_line b).1 ≡ b)
      × Free lf b.receive_buffer
      × (length b.receive_buffer < max_bot_message_size)
unfolding extract_line
extract_line_idle b h = elim (Option-cases (find_byte lf b.receive_buffer)) [
  | inl e ↦ ground (arith, find_byte-Free lf b.receive_buffer e)
  | inr (pos, e) ↦ absurd (ground arith)
]

-- Each line takes at least its newline from the buffer.
pub extract_line_shrinks :
    (b : Bot) {line : Text}
    → (extract_line b).0 ≡ done (some line)
    → length (extract_line b).1.receive_buffer < length b.receive_buffer
unfolding extract_line
extract_line_shrinks b {line} h = elim (Option-cases (find_byte lf b.receive_buffer)) [
  | inl e ↦ absurd (ground arith)
  | inr (pos, e) ↦
      ground
        (arith, find_byte-Found lf b.receive_buffer pos e, length-drop (pos + 1) b.receive_buffer)
]
