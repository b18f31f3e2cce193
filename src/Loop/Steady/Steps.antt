-- ===== src/Loop/Steady/Steps.antt =====
-- Reads, writes and errors of a client, and the first loop of `reapDeadClients`, are steady.
use irc.Base.{
  ℕ, zero, suc, refl, Bool, true, false, ◌||◌, [], ◌∷◌, Option, none, some, arith, length, is_empty,
  if◌then◌else◌, Option-cases, inl, inr,
}
use irc.Text.{Text, int_key, text_key}
use irc.Map.{Map, lookup}
use irc.Client.{
  Client, extract_line, append_to_recv_buffer, is_registered, mark_dead, consume_send_buffer,
}
use irc.Server.{Server, update_client}
use irc.Command.Dispatch.{process_line}
use irc.Policy.Invariant.All.{Inv, process_line-Inv}
use irc.Loop.{
  Received, end_of_stream, no_data, recv_error, bytes, Sent, not_ready, send_error, took,
  read_lines, is_stopped, receive, receive_bytes, handle_client_read, after_send,
  handle_client_write, finish_closing, finish_all, announce_quit,
}
use irc.Loop.Events.{read_event, write_event, error_event}
use irc.Loop.Kept.{update_client-Inv, extract_line_kept, append_kept}
use irc.Loop.Steady.{
  Stays, Paired, none_left, pair, Steady, Steady-refl, Steady-trans, update_client-Steady,
  mark_closing-Stays, mark_dead-Stays, broadcast-Steady, process_line-Steady,
}

extract_line-Stays : (c : Client) → Stays c (extract_line c).1
unfolding extract_line mark_dead
extract_line-Stays c = ground arith

append-Stays :
    (chunk : Option Text) (n : ℕ) (c : Client) → Stays c (append_to_recv_buffer chunk n c).1
unfolding append_to_recv_buffer
append-Stays chunk n c = ground arith

after_send-Stays : (w : Sent) (c : Client) → Stays c (after_send w c)
unfolding after_send consume_send_buffer mark_dead
after_send-Stays not_ready c = ground arith
after_send-Stays (send_error why) c = ground arith
after_send-Stays (took zero) c = ground arith
after_send-Stays (took (suc n)) c = ground arith

finish_closing-Stays : (c : Client) → Stays c (finish_closing c)
unfolding finish_closing mark_dead
finish_closing-Stays c = ground arith

if-Steady : {r s t : Server} (b : Bool) → Steady r s → Steady r t → Steady r (if b then s else t)
if-Steady true p q = p
if-Steady false p q = q

read_lines-Steady : (fuel fd : ℕ) (s : Server) → Inv s → Steady s (read_lines fuel fd s)
unfolding read_lines
read_lines-Steady zero fd s i = Steady-refl s
read_lines-Steady (suc fuel) fd s i = elim (Option-cases (lookup fd s.clients)) [
  | inl gone ↦ rw (gone, read_lines) (Steady-refl s)
  | inr (c, there) ↦
      let left : Server = update_client fd (λ b. (extract_line b).1) s in
      let kept = update_client-Inv fd (λ b. (extract_line b).1) s extract_line_kept i in
      let first = update_client-Steady fd (λ b. (extract_line b).1) s extract_line-Stays in
      elim (Option-cases (extract_line c).0) [
        | inl idle ↦ rw (there, idle, read_lines) first
        | inr (message, found) ↦
            let processed : Server = process_line fd message left in
            let both =
              Steady-trans s left processed first
                (process_line-Steady fd message left kept.named) in
            rw (there, found, read_lines)
              (if-Steady (is_stopped fd processed) both (
                Steady-trans s processed _ both
                  (read_lines-Steady fuel fd processed (process_line-Inv fd message left kept))))
      ]
]

receive-Steady :
    (fd : ℕ) (r : Received) (c : Client) (s : Server) → Inv s → Steady s (receive fd r c s)
unfolding receive receive_bytes
receive-Steady fd end_of_stream c s i = update_client-Steady fd _ s (mark_closing-Stays _)
receive-Steady fd no_data c s i = Steady-refl s
receive-Steady fd (recv_error why) c s i = update_client-Steady fd _ s (mark_dead-Stays _)
receive-Steady fd (bytes chunk) c s i =
    let grow : Client → Client = λ b. (append_to_recv_buffer (some chunk) (length chunk) b).1 in
    let stored = update_client-Inv fd grow s (append_kept chunk (length chunk)) i in
    let first = update_client-Steady fd grow s (append-Stays (some chunk) (length chunk)) in
    if-Steady (append_to_recv_buffer (some chunk) (length chunk) c).0
      (Steady-trans s _ _ first (read_lines-Steady _ fd _ stored))
      (Steady-trans s _ _ first
        (update_client-Steady fd _ (update_client fd grow s) (mark_dead-Stays _)))

handle_client_read-Steady :
    (fd : ℕ) (r : Received) (s : Server) → Inv s → Steady s (handle_client_read fd r s)
unfolding handle_client_read
handle_client_read-Steady fd r s i = elim (Option-cases (lookup fd s.clients)) [
  | inl gone ↦ rw (gone, handle_client_read) (Steady-refl s)
  | inr (c, there) ↦
      rw (there, handle_client_read)
        (if-Steady (c.dead || c.closing) (Steady-refl s) (receive-Steady fd r c s i))
]

handle_client_write-Steady :
    (fd : ℕ) (w : Sent) (s : Server) → Steady s (handle_client_write fd w s)
unfolding handle_client_write
handle_client_write-Steady fd w s = elim (Option-cases (lookup fd s.clients)) [
  | inl gone ↦ rw (gone, handle_client_write) (Steady-refl s)
  | inr (c, there) ↦
      rw (there, handle_client_write)
        (if-Steady c.dead (Steady-refl s) (
          if-Steady (is_empty c.send_buffer) (Steady-refl s)
            (update_client-Steady fd _ s (after_send-Stays w))))
]

read_event-Steady :
    (fd : ℕ) (r : Option Received) (s : Server) → Inv s → Steady s (read_event fd r s)
unfolding read_event
read_event-Steady fd none s i = Steady-refl s
read_event-Steady fd (some r) s i = handle_client_read-Steady fd r s i

write_event-Steady : (fd : ℕ) (w : Option Sent) (s : Server) → Steady s (write_event fd w s)
unfolding write_event
write_event-Steady fd none s = Steady-refl s
write_event-Steady fd (some w) s = handle_client_write-Steady fd w s

error_event-Steady :
    (fd : ℕ) (r : Option Received) (e : Bool) (s : Server) → Steady s (error_event fd r e s)
unfolding error_event
error_event-Steady fd none true s = update_client-Steady fd _ s (mark_dead-Stays _)
error_event-Steady fd none false s = Steady-refl s
error_event-Steady fd (some r) e s = Steady-refl s

-- All that one entry of a client makes the server do.
pub ready-Steady :
    (fd : ℕ) (r : Option Received) (w : Option Sent) (e : Bool) (s : Server)
    → Inv s
    → Steady s (error_event fd r e (write_event fd w (read_event fd r s)))
ready-Steady fd r w e s i =
    let was_read : Server = read_event fd r s in
    let was_written : Server = write_event fd w was_read in
    Steady-trans s was_read _ (read_event-Steady fd r s i) (
      Steady-trans was_read was_written _ (write_event-Steady fd w was_read)
        (error_event-Steady fd r e was_written))

finish_all-Paired : (m : Map ℕ Client) → Paired m (finish_all m)
unfolding finish_all
finish_all-Paired [] = none_left
finish_all-Paired ((k, c) ∷ m) = pair (finish_closing-Stays c) (finish_all-Paired m)

pub finish_all-Steady : (s : Server) → Steady s (record s { clients = finish_all s.clients })
finish_all-Steady s = record {
  entries_same = refl;
  listen_same = refl;
  clients_stay = finish_all-Paired s.clients;
}

pub announce_quit-Steady : (fd : ℕ) (c : Client) (s : Server) → Steady s (announce_quit fd c s)
unfolding announce_quit
announce_quit-Steady fd c s = if-Steady (is_registered c) (broadcast-Steady _ _ _ s) (Steady-refl s)
