-- ===== src/Client/Outbound.antt =====
-- The send buffer: what may enter it, its bound, and what the kernel takes from it.
use irc.Base.{
  ℕ, ◌≤◌, ◌≡◌, sym, ap, ◌∙◌, ◌⊎◌, inl, inr, true, false, List, [], ◌∷◌, ◌++◌, append_assoc,
  append-nil, arith, length, length-append, take, All, if◌then◌else◌, leb, take-append-drop,
  take_all,
}
use irc.Text.{Text}
use irc.Client.{
  Client, max_send_buffer, is_valid_outbound_message, mark_dead, mark_closing, send_message,
  consume_send_buffer,
}

-- The buffer is within its limit.
abbrev pub SendBounded : Client → Type 0
SendBounded c = length c.send_buffer ≤ max_send_buffer

-- `sendMessage` keeps the send buffer within 65536 bytes.
pub send_message-SendBounded :
    (m : Text) (c : Client) → SendBounded c → SendBounded (send_message m c)
unfolding send_message mark_dead
send_message-SendBounded m c h = ground (arith, length-append c.send_buffer m)

-- A message is queued whole at the end of the buffer, and then it is valid and the client neither
-- dead nor closing; or the buffer is as it was.
pub send_message_cases :
    (m : Text) (c : Client)
    → ((send_message m c).send_buffer ≡ c.send_buffer)
      ⊎ (((send_message m c).send_buffer ≡ c.send_buffer ++ m)
          × (is_valid_outbound_message m ≡ true)
          × (c.dead ≡ false)
          × (c.closing ≡ false))
unfolding send_message mark_dead
send_message_cases m c = ground arith

-- What happens to the output of one client: a message for it, bytes that `send` took, and the
-- two ends of the connection.
pub data Output : Type 0 where
  queue : Text → Output
  sent : ℕ → Output
  closes : Text → Output
  dies : Text → Output

-- What `send` took of the buffer; it reports no more than it was offered.
abbrev pub taken : ℕ → Client → Text
taken n c = if leb n (length c.send_buffer) then take n c.send_buffer else []

-- The bytes on the wire, and the client.
abbrev pub output_step : Output → Text × Client → Text × Client
output_step (queue m) (wire, c) = (wire, send_message m c)
output_step (sent n) (wire, c) = (wire ++ taken n c, consume_send_buffer n c)
output_step (closes r) (wire, c) = (wire, mark_closing r c)
output_step (dies r) (wire, c) = (wire, mark_dead r c)

abbrev pub output_run : List Output → Text × Client → Text × Client
output_run [] s = s
output_run (o ∷ os) s = output_run os (output_step o s)

abbrev pub concat : List Text → Text
concat [] = []
concat (m ∷ ms) = m ++ concat ms

concat-append : (ms : List Text) (m : Text) → concat (ms ++ m ∷ []) ≡ concat ms ++ m
concat-append [] m = append-nil m
concat-append (x ∷ ms) m = rw (concat-append ms m) (sym (append_assoc x (concat ms) m))

abbrev pub IsValid : Text → Type 0
IsValid m = is_valid_outbound_message m ≡ true

All-append : (ms : List Text) (m : Text) → All IsValid ms → IsValid m → All IsValid (ms ++ m ∷ [])
All-append [] m h k = (k, tt)
All-append (x ∷ ms) m h k = (h.0, All-append ms m h.1 k)

-- Wire and buffer together are the given messages, one after the other.
abbrev pub Framed : Text × Client → Type 0
Framed (wire, c) = (ms : List Text) × All IsValid ms × (wire ++ c.send_buffer ≡ concat ms)

consume-taken :
    (n : ℕ) (c : Client) → taken n c ++ (consume_send_buffer n c).send_buffer ≡ c.send_buffer
unfolding consume_send_buffer mark_dead
consume-taken n c =
    ground
      (arith, take-append-drop n c.send_buffer, take_all c.send_buffer, append-nil c.send_buffer)

output_step-Framed : (o : Output) (s : Text × Client) → Framed s → Framed (output_step o s)
output_step-Framed (queue m) (wire, c) (ms, v, e) = elim (send_message_cases m c) [
  | inl same ↦ (ms, v, rw same e)
  | inr (grown, valid, _, _) ↦ (
    ms ++ m ∷ [],
    All-append ms m v valid,
    rw (grown, concat-append ms m, ← e) (sym (append_assoc wire c.send_buffer m)),
  )
]
output_step-Framed (sent n) (wire, c) (ms, v, e) =
    (ms, v, append_assoc wire (taken n c) _ ∙ ap (◌++◌ wire) (consume-taken n c) ∙ e)
output_step-Framed (closes r) (wire, c) (ms, v, e) = (ms, v, unfold mark_closing in ground arith)
output_step-Framed (dies r) (wire, c) (ms, v, e) = (ms, v, unfold mark_dead in ground arith)

output_run-Framed : (os : List Output) (s : Text × Client) → Framed s → Framed (output_run os s)
output_run-Framed [] s f = f
output_run-Framed (o ∷ os) s f = output_run-Framed os (output_step o s) (output_step-Framed o s f)

-- Whatever is queued, sent in part, closed or killed, in any order: from an empty send buffer on,
-- the bytes on the wire followed by those still in the buffer are a sequence of whole messages,
-- each of them valid (so of at most 512 bytes, ended by CR LF, with no other CR, LF or NUL).
pub output_run-stream :
    (os : List Output) (c : Client) → c.send_buffer ≡ [] → Framed (output_run os ([], c))
output_run-stream os c e = output_run-Framed os ([], c) ([], tt, e)
