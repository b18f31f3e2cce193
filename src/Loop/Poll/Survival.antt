-- ===== src/Loop/Poll/Survival.antt =====
-- A round without an error of the listening socket does not end the server.
use irc.Base.{
  is_empty, ℕ, ◌≡◌, refl, Bool, true, false, not, ◌&&◌, List, [], ◌∷◌, Option, none, some, arith,
  contains, if◌then◌else◌, length, leb,
}
use irc.Text.{int_key, text_key}
use irc.Client.{new_client}
use irc.Server.{Server, PollFd, count_clients_from_ip}
use irc.Policy.Invariant.All.{Inv}
use irc.Loop.{
  Accepted, no_connection, connection, max_total_clients, max_clients_per_ip, admit_client,
  accept_new_client, refresh_poll_events, reap_dead_clients,
}
use irc.Loop.Events.{
  Event, incoming, listen_error, ready, read_event, write_event, error_event, handle_event,
  handle_events, round, Poll, poll_interrupted, poll_failed, reports, turn, run,
}
use irc.Loop.Invariant.{accept_new_client-Inv}
use irc.Loop.Invariant.Leave.{reap_dead_clients-Inv}
use irc.Loop.Invariant.Round.{
  read_event-Inv, write_event-Inv, error_event-Inv, refresh_poll_events-InvOrEnded,
}
use irc.Loop.Poll.{fds, PollOk, Steady-PollOk}
use irc.Loop.Steady.Steps.{ready-Steady}
use irc.Loop.Poll.Rounds.{
  refresh_poll_events-PollOk, register_client-PollOk, reap_dead_clients-PollOk,
}

-- A descriptor that `accept` returns is none that is open; and the listening socket has no error.
abbrev pub is_calm_event : Event → Server → Bool
is_calm_event (incoming no_connection) s = true
is_calm_event (incoming (connection fd ok ip)) s = not (contains fd (fds s.poll_fds))
is_calm_event listen_error s = false
is_calm_event (ready fd r w e) s = true

-- All events are, each in the state that it meets.
unfoldable pub is_calm : List Event → Server → Bool
is_calm [] s = true
is_calm (e ∷ es) s =
    is_calm_event e s && elim (handle_event e s) [ none ↦ true | some t ↦ is_calm es t ]

if-PollOk : {s t : Server} (b : Bool) → PollOk s → PollOk t → PollOk (if b then s else t)
if-PollOk true p q = p
if-PollOk false p q = q

accept_new_client-PollOk :
    (a : Accepted) (s : Server)
    → is_calm_event (incoming a) s ≡ true
    → PollOk s
    → PollOk (accept_new_client a s)
unfolding accept_new_client admit_client
accept_new_client-PollOk no_connection s calm o = o
accept_new_client-PollOk (connection fd ok none) s calm o =
    if-PollOk (leb max_total_clients (length s.clients)) o (if-PollOk (not ok) o o)
accept_new_client-PollOk (connection fd ok (some ip)) s calm o =
    if-PollOk (leb max_total_clients (length s.clients)) o (
      if-PollOk (not ok) o (
        if-PollOk (leb max_clients_per_ip (count_clients_from_ip ip s)) o
          (register_client-PollOk fd (new_client fd ip) s (ground arith) o)))

-- The server has gone on, with the invariant and its poll entries in order.
abbrev pub GoesOn : Option Server → Type 0
GoesOn o = (t : Server) × (o ≡ some t) × Inv t × PollOk t

handle_event-GoesOn :
    (e : Event) (s : Server)
    → is_calm_event e s ≡ true
    → Inv s
    → PollOk s
    → GoesOn (handle_event e s)
unfolding handle_event
handle_event-GoesOn (incoming a) s calm i o =
    (accept_new_client a s, refl, accept_new_client-Inv a s i, accept_new_client-PollOk a s calm o)
handle_event-GoesOn listen_error s calm i o = absurd (ground arith)
handle_event-GoesOn (ready fd r w e) s calm i o =
    let was_read = read_event fd r s in
    let was_written = write_event fd w was_read in
    (
      error_event fd r e was_written,
      refl,
      error_event-Inv fd r e _ (write_event-Inv fd w _ (read_event-Inv fd r s i)),
      Steady-PollOk s _ (ready-Steady fd r w e s i) o,
    )

handle_events-GoesOn :
    (es : List Event) (s : Server)
    → is_calm es s ≡ true
    → Inv s
    → PollOk s
    → GoesOn (handle_events es s)
unfolding handle_events is_calm
handle_events-GoesOn [] s calm i o = (s, refl, i, o)
handle_events-GoesOn (e ∷ es) s calm i o =
    let (t, h, i', o') = handle_event-GoesOn e s (ground (arith, calm)) i o in
    let (u, h', i'', o'') = handle_events-GoesOn es t (ground (arith, calm, h)) i' o' in
    (u, rw (h, handle_events) h', i'', o'')

-- There is the entry of the listening socket at least.
waiting : (s : Server) → PollOk s → is_empty s.poll_fds ≡ false
waiting s o = some_entry s.poll_fds s.listen_fd o.listening
  where
    some_entry : (ps : List PollFd) (x : ℕ) → contains x (fds ps) ≡ true → is_empty ps ≡ false
    some_entry [] x h = absurd (ground arith)
    some_entry (p ∷ ps) x h = refl

-- From a state with the invariant and its poll entries in order, a round whose events hold no error
-- of the listening socket, and no connection under a descriptor that is open already, does not
-- end the server with an exception, and leaves a state of the same kind.
pub round-GoesOn :
    (es : List Event) (s polled : Server)
    → Inv s
    → PollOk s
    → refresh_poll_events s ≡ some polled
    → is_calm es polled ≡ true
    → GoesOn (round es s)
unfolding round
round-GoesOn es s polled i o e calm =
    let (t, e', o') = refresh_poll_events-PollOk s o in
    let same : t ≡ polled = ground (arith, e, e') in
    let clean : Inv polled = rw e at (refresh_poll_events-InvOrEnded s i) in
    let (u, h, i', o'') = handle_events-GoesOn es polled calm clean (rw same at o') in
    (
      reap_dead_clients u,
      rw (e, waiting polled (rw same at o'), h, round),
      reap_dead_clients-Inv u i',
      reap_dead_clients-PollOk u o'',
    )

-- The same of a turn: `poll` has not failed.
abbrev pub is_calm_turn : Poll → Server → Bool
is_calm_turn poll_interrupted s = true
is_calm_turn poll_failed s = false
is_calm_turn (reports es) s = elim (refresh_poll_events s) [
  | none ↦ true
  | some refreshed ↦ is_calm es refreshed
]

unfoldable pub is_calm_run : List Poll → Server → Bool
is_calm_run [] s = true
is_calm_run (p ∷ polls) s =
    is_calm_turn p s && elim (turn p s) [ none ↦ true | some t ↦ is_calm_run polls t ]

turn-GoesOn :
    (p : Poll) (s : Server) → is_calm_turn p s ≡ true → Inv s → PollOk s → GoesOn (turn p s)
unfolding turn
turn-GoesOn poll_interrupted s calm i o =
    let (t, e, o') = refresh_poll_events-PollOk s o in
    (t, rw (e, waiting t o', turn), rw e at (refresh_poll_events-InvOrEnded s i), o')
turn-GoesOn poll_failed s calm i o = absurd (ground arith)
turn-GoesOn (reports es) s calm i o =
    let (t, e, o') = refresh_poll_events-PollOk s o in
    round-GoesOn es s t i o e (ground (arith, calm, e))

-- From a state with the invariant and its poll entries in order, the loop runs until the shutdown
-- flag is set, without an exception, if `poll` does not fail, the listening socket has no error and
-- `accept` returns no descriptor that is open already; and it leaves a state of the same kind.
pub run-GoesOn :
    (polls : List Poll) (s : Server)
    → is_calm_run polls s ≡ true
    → Inv s
    → PollOk s
    → GoesOn (run polls s)
unfolding run is_calm_run
run-GoesOn [] s calm i o = (s, refl, i, o)
run-GoesOn (p ∷ polls) s calm i o =
    let (t, e, i', o') = turn-GoesOn p s (ground (arith, calm)) i o in
    let (u, e', i'', o'') = run-GoesOn polls t (ground (arith, calm, e)) i' o' in
    (u, rw (e, run) e', i'', o'')
