-- ===== src/Loop/Drain.antt =====
-- The loop over the lines of a chunk ends by itself: its fuel is more than the rounds that it
-- can make, since each round takes at least a newline from the receive buffer and no command puts
-- anything back.
use mathlib.Core.Option
use irc.Base.{
  ℕ, zero, suc, ◌<◌, ◌≡◌, refl, ap, ◌∙◌, ◌⊎◌, true, List, Option, none, some, arith, length,
  Option-cases, inl, inr, Bool-cases,
}
use irc.Text.{Text, lf, find_byte, int_key, text_key}
use irc.Map.{Map, lookup, modify}
use irc.Map.Laws.{lookup-modify}
use irc.Client.{Client, append_to_recv_buffer, extract_line, mark_dead, record_failed_pass_attempt}
use irc.Client.Lines.{extract_line_shrinks}
use irc.Client.Evolves.{send_message-Told, mark_closing-Told}
use irc.Server.{Server, tell, update_client, update_channel, remove_channel}
use irc.Command.Dispatch.{process_line}
use irc.Policy
use irc.Policy.Names.{Named}
use irc.Policy.Refine.Dispatch.{process_line-Acts}
use irc.Policy.Invariant.Channels.{clients-create_channel}
use irc.Policy.Invariant.All.{Inv, process_line-Inv}
use irc.Loop.Kept.{update_client-Inv, extract_line_kept, append_kept}
use irc.Loop.{receive_bytes, read_lines, is_stopped, unread}

unread-modify :
    (x fd : ℕ) (f : Client → Client) (m : Map ℕ Client)
    → ((c : Client) → (f c).recv_buffer ≡ c.recv_buffer)
    → Option.map (λ (c : Client). c.recv_buffer) (lookup x (modify fd f m))
      ≡ Option.map (λ (c : Client). c.recv_buffer) (lookup x m)
unread-modify x fd f m keep = elim (Option-cases (lookup x m)) [
  | inl e ↦ ground (arith, lookup-modify x fd f m)
  | inr (c, e) ↦ ground (arith, lookup-modify x fd f m, keep c)
]

abbrev pub recv_of : ℕ → Server → Option Text
recv_of x s = Option.map (λ (c : Client). c.recv_buffer) (lookup x s.clients)

module _ {fd : ℕ} {who : Client} {params : List Text} {start : Server} where
  recv-Act : {s t : Server} (x : ℕ) → Policy.Act fd who params start s t → recv_of x t ≡ recv_of x s
  unfolding tell update_client update_channel remove_channel record_failed_pass_attempt
  recv-Act x (Policy.tells y m) =
      unread-modify x y _ _ (λ c. (send_message-Told m c).evolves.recv_same)
  recv-Act x (Policy.authenticates p) = unread-modify x fd _ _ (λ c. refl)
  recv-Act x Policy.fails_pass = unread-modify x fd record_failed_pass_attempt _ (λ c. ground arith)
  recv-Act x (Policy.closes reason) =
      unread-modify x fd _ _ (λ c. (mark_closing-Told reason c).evolves.recv_same)
  recv-Act x (Policy.identifies u h a v) = unread-modify x fd _ _ (λ c. refl)
  recv-Act x (Policy.renames u h a v f) = unread-modify x fd _ _ (λ c. refl)
  recv-Act {s} x (Policy.creates name r a v e) = rw (clients-create_channel name s)
  recv-Act x (Policy.joins name ch r e m) = refl
  recv-Act x (Policy.leaves name r a) = refl
  recv-Act x (Policy.removes name ch r e z) = refl
  recv-Act x (Policy.kicks name ch target r a e op m) = refl
  recv-Act x (Policy.invites name ch target r a e m o i) = refl
  recv-Act x (Policy.retopics name topic ch r a e m op) = refl
  recv-Act x (Policy.sets name change r a op) = refl
  recv-Act x (Policy.promotes name ch target r a op e m) = refl
  recv-Act x (Policy.demotes name target r a op) = refl

  recv-Acts :
      {s t : Server} (x : ℕ) → Policy.Acts fd who params start s t → recv_of x t ≡ recv_of x s
  recv-Acts x Policy.done = refl
  recv-Acts x (Policy.also p a) = recv-Act x a ∙ recv-Acts x p

-- In a server whose channels stand under their names, a line of any client leaves every receive
-- buffer alone.
pub process_line_recv :
    (fd x : ℕ) (raw_line : Text) (s : Server)
    → Named s
    → recv_of x (process_line fd raw_line s) ≡ recv_of x s
process_line_recv fd x raw_line s n = elim (Option-cases (lookup fd s.clients)) [
  | inl gone ↦ unfold process_line in rw (gone, process_line) refl
  | inr (who, there) ↦ recv-Acts x (process_line-Acts fd who raw_line s there n)
]

-- Without a line, nothing has changed, or the client is dead.
extract_line_idle :
    (c : Client)
    → (extract_line c).0 ≡ none
    → ((extract_line c).1 ≡ c) ⊎ ((extract_line c).1.dead ≡ true)
unfolding extract_line mark_dead
extract_line_idle c h = elim (Option-cases (find_byte lf c.recv_buffer)) [
  | inl e ↦ inl (rw (e, extract_line))
  | inr (pos, e) ↦ inr (ground arith)
]

-- The loop has come to its end: the client is gone, dead or closing, or has no further line.
abbrev pub Drained : ℕ → Server → Type 0
Drained fd s =
    (is_stopped fd s ≡ true)
    ⊎ ((c : Client) × (lookup fd s.clients ≡ some c) × ((extract_line c).0 ≡ none))

left_lookup :
    (fd : ℕ) (s : Server) (c : Client)
    → lookup fd s.clients ≡ some c
    → lookup fd (update_client fd (λ b. (extract_line b).1) s).clients ≡ some (extract_line c).1
unfolding update_client
left_lookup fd s c e =
    ground (arith, lookup-modify fd fd (λ (b : Client). (extract_line b).1) s.clients)

idle-Drained :
    (fd : ℕ) (t : Server) (c : Client)
    → lookup fd t.clients ≡ some (extract_line c).1
    → (extract_line c).0 ≡ none
    → Drained fd t
idle-Drained fd t c l e = elim (extract_line_idle c e) [
  | inl same ↦ inr (c, l ∙ ap some same, e)
  | inr dead ↦ inl (ground arith)
]

unread_of : (fd : ℕ) (s t : Server) → recv_of fd t ≡ recv_of fd s → unread fd t ≡ unread fd s
unread_of fd s t e = ground arith

-- From a state with the invariant and with more fuel than bytes in the receive buffer, the loop over the lines of a client runs to
-- its end: afterwards the client is gone, dead or closing, or no line can be extracted from its
-- buffer.
pub read_lines-Drained :
    (fuel fd : ℕ) (s : Server) → Inv s → unread fd s < fuel → Drained fd (read_lines fuel fd s)
unfolding read_lines
read_lines-Drained zero fd s i h = absurd (omega arith)
read_lines-Drained (suc fuel) fd s i h = elim (Option-cases (lookup fd s.clients)) [
  | inl gone ↦ rw (gone, read_lines) (inl (rw (gone, is_stopped)))
  | inr (c, there) ↦
      let left : Server = update_client fd (λ b. (extract_line b).1) s in
      let kept = update_client-Inv fd (λ b. (extract_line b).1) s extract_line_kept i in
      elim (Option-cases (extract_line c).0) [
        | inl idle ↦
            rw (there, idle, read_lines) (idle-Drained fd left c (left_lookup fd s c there) idle)
        | inr (message, found) ↦
            let processed : Server = process_line fd message left in
            elim (Bool-cases (is_stopped fd processed)) [
              | inl stopped ↦ rw (there, found, stopped, read_lines) (inl stopped)
              | inr going ↦
                  rw (there, found, going, read_lines)
                    (read_lines-Drained fuel fd processed (process_line-Inv fd message left kept) (
                      ground (
                        arith,
                        extract_line_shrinks c {line = message} found,
                        left_lookup fd s c there,
                        unread_of fd left processed
                            (process_line_recv fd fd message left kept.named),
                      )))
            ]
      ]
]

stored_lookup :
    (fd : ℕ) (f : Client → Client) (s : Server) {c : Client}
    → lookup fd s.clients ≡ some c
    → lookup fd (update_client fd f s).clients ≡ some (f c)
unfolding update_client
stored_lookup fd f s e = ground (arith, lookup-modify fd fd f s.clients)

flooded-Drained :
    (fd : ℕ) (why : Text) (t : Server) {c : Client}
    → lookup fd t.clients ≡ some c
    → Drained fd (update_client fd (mark_dead why) t)
unfolding mark_dead
flooded-Drained fd why t e = inl (ground (arith, stored_lookup fd (mark_dead why) t e))

-- From a state with the invariant, after a chunk of a client that the server holds has been
-- received, no complete line is left in its buffer, or the client is gone, dead or closing.
pub receive_bytes-Drained :
    (fd : ℕ) (chunk : Text) (c : Client) (s : Server)
    → Inv s
    → lookup fd s.clients ≡ some c
    → Drained fd (receive_bytes fd chunk c s)
unfolding receive_bytes
receive_bytes-Drained fd chunk c s i there =
    let grow : Client → Client = λ b. (append_to_recv_buffer (some chunk) (length chunk) b).1 in
    let now = stored_lookup fd grow s there in
    elim (Bool-cases (append_to_recv_buffer (some chunk) (length chunk) c).0) [
      | inl accepted ↦
          rw (accepted, receive_bytes)
            (read_lines-Drained _ fd (update_client fd grow s)
              (update_client-Inv fd grow s (append_kept chunk (length chunk)) i)
              (ground (arith, now)))
      | inr flood ↦ rw (flood, receive_bytes) (flooded-Drained fd _ (update_client fd grow s) now)
    ]
