-- ===== src/Loop/Invariant/Round.antt =====
-- The invariant over whole rounds of the event loop.
use irc.Base.{ℕ, Bool, true, false, List, Option, none, some, Option-cases, inl, inr}
use irc.Text.{int_key, text_key}
use irc.Server.{Server}
use irc.Policy.Invariant.All.{Inv}
use irc.Loop.{Received, Sent, refresh_entries, refresh_poll_events}
use irc.Loop.Kept.{update_client-Inv, mark_dead_kept}
use irc.Loop.Invariant.{accept_new_client-Inv, handle_client_read-Inv, handle_client_write-Inv}
use irc.Loop.Invariant.Leave.{reap_dead_clients-Inv}
use irc.Loop.Carried.{OrEnded, Carried, run-OrEnded}
use irc.Loop.Events.{
  Event, incoming, listen_error, ready, read_event, write_event, error_event, handle_event, Poll,
  run,
}

pub read_event-Inv : (fd : ℕ) (r : Option Received) (s : Server) → Inv s → Inv (read_event fd r s)
unfolding read_event
read_event-Inv fd none s i = i
read_event-Inv fd (some r) s i = handle_client_read-Inv fd r s i

pub write_event-Inv : (fd : ℕ) (w : Option Sent) (s : Server) → Inv s → Inv (write_event fd w s)
unfolding write_event
write_event-Inv fd none s i = i
write_event-Inv fd (some w) s i = handle_client_write-Inv fd w s i

pub error_event-Inv :
    (fd : ℕ) (r : Option Received) (e : Bool) (s : Server) → Inv s → Inv (error_event fd r e s)
unfolding error_event
error_event-Inv fd none true s i = update_client-Inv fd _ s (mark_dead_kept _) i
error_event-Inv fd none false s i = i
error_event-Inv fd (some r) e s i = i

-- The invariant, unless the server has ended with an exception.
abbrev pub InvOrEnded : Option Server → Type 0
InvOrEnded = OrEnded Inv

pub handle_event-InvOrEnded : (e : Event) (s : Server) → Inv s → InvOrEnded (handle_event e s)
unfolding handle_event
handle_event-InvOrEnded (incoming a) s i = accept_new_client-Inv a s i
handle_event-InvOrEnded listen_error s i = tt
handle_event-InvOrEnded (ready fd r w e) s i =
    error_event-Inv fd r e _ (write_event-Inv fd w _ (read_event-Inv fd r s i))

pub refresh_poll_events-InvOrEnded : (s : Server) → Inv s → InvOrEnded (refresh_poll_events s)
unfolding refresh_poll_events
refresh_poll_events-InvOrEnded s i =
    elim (Option-cases (refresh_entries s.listen_fd s.clients s.poll_fds)) [
      | inl ended ↦ rw (ended, refresh_poll_events) tt
      | inr (ps, refreshed) ↦
          rw (refreshed, refresh_poll_events)
            (record {
              named = i.named;
              channels_ok = i.channels_ok;
              clients_ok = i.clients_ok;
              nicks_ok = i.nicks_ok;
            })
    ]

Inv-Carried : Carried Inv
Inv-Carried = record {
  event = handle_event-InvOrEnded;
  refresh = refresh_poll_events-InvOrEnded;
  reap = reap_dead_clients-Inv;
}

-- Over any number of turns of the loop, whatever `poll`, `accept`, `recv` and `send` report in them,
-- the invariant of the server is kept, unless one of the turns ends the server with an exception.
pub run-InvOrEnded : (polls : List Poll) (s : Server) → Inv s → InvOrEnded (run polls s)
run-InvOrEnded polls s i = run-OrEnded Inv-Carried polls s i
