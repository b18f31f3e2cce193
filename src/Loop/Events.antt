-- ===== src/Loop/Events.antt =====
-- One round of the loop in `Server::run`: the events that `poll` reports, in the order of the
-- entries, and then the clients that are dead.
use irc.Base.{ℕ, Bool, true, false, List, [], ◌∷◌, Option, none, some, if◌then◌else◌, is_empty}
use irc.Client.{mark_dead}
use irc.Server.{Server, text, update_client}
use irc.Loop.{
  Accepted, Received, Sent, accept_new_client, handle_client_read, handle_client_write,
  reap_dead_clients, refresh_poll_events,
}

-- An entry with events: the listening socket with POLLIN, or with an error only; a client with
-- what `recv` answers if POLLIN is set, what `send` answers if POLLOUT is set, and whether one of
-- POLLERR, POLLHUP and POLLNVAL is.
pub data Event : Type 0 where
  incoming : Accepted → Event
  listen_error : Event
  ready : ℕ → Option Received → Option Sent → Bool → Event

unfoldable pub read_event : ℕ → Option Received → Server → Server
read_event fd none s = s
read_event fd (some r) s = handle_client_read fd r s

unfoldable pub write_event : ℕ → Option Sent → Server → Server
write_event fd none s = s
write_event fd (some w) s = handle_client_write fd w s

-- An error counts if there is nothing to read.
unfoldable pub error_event : ℕ → Option Received → Bool → Server → Server
error_event fd none true s = update_client fd (mark_dead (text "socket error (POLLERR/POLLHUP)")) s
error_event fd none false s = s
error_event fd (some r) e s = s

-- `none` is the exception that ends the server.
unfoldable pub handle_event : Event → Server → Option Server
handle_event (incoming a) s = some (accept_new_client a s)
handle_event listen_error s = none
handle_event (ready fd r w e) s = some (error_event fd r e (write_event fd w (read_event fd r s)))

unfoldable pub handle_events : List Event → Server → Option Server
handle_events [] s = some s
handle_events (e ∷ es) s = elim (handle_event e s) [ none ↦ none | some t ↦ handle_events es t ]

-- The loop stops if there is nothing to wait for.
unfoldable pub round : List Event → Server → Option Server
round es s = elim (refresh_poll_events s) [
  | none ↦ none
  | some refreshed ↦
      if is_empty refreshed.poll_fds
      then none
      else elim (handle_events es refreshed) [ none ↦ none | some t ↦ some (reap_dead_clients t) ]
]

-- What `poll` does: it is interrupted (EINTR), fails, or reports events.
pub data Poll : Type 0 where
  poll_interrupted poll_failed : Poll
  reports : List Event → Poll

-- After an interruption the entries have been refreshed, and the loop goes on.
unfoldable pub turn : Poll → Server → Option Server
turn poll_interrupted s = elim (refresh_poll_events s) [
  | none ↦ none
  | some refreshed ↦ if is_empty refreshed.poll_fds then none else some refreshed
]
turn poll_failed s = none
turn (reports es) s = round es s

-- The loop until the shutdown flag is set, at the end of the list.
unfoldable pub run : List Poll → Server → Option Server
run [] s = some s
run (p ∷ polls) s = elim (turn p s) [ none ↦ none | some t ↦ run polls t ]
