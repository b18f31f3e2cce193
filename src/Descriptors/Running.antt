-- ===== src/Descriptors/Running.antt =====
-- The sockets are accounted for through the loop, by whichever way it ends.
use irc.Base.{
  ℕ, ◌≡◌, refl, Bool, true, false, not, ◌&&◌, List, [], ◌∷◌, none, some, arith, is_empty, contains,
  if◌then◌else◌, Option-cases, inl, inr,
}
use irc.Text.{int_key, text_key}
use irc.Server.{Server}
use irc.Policy.Invariant.All.{Inv}
use irc.Loop.{no_connection, connection, refresh_entries, refresh_poll_events}
use irc.Loop.Events.{
  Event, incoming, listen_error, ready, handle_event, Poll, poll_interrupted, poll_failed, reports,
}
use irc.Loop.Invariant.{accept_new_client-Inv}
use irc.Loop.Invariant.Leave.{disconnect_client-Inv, finish_all-Inv}
use irc.Loop.Invariant.Round.{handle_event-InvOrEnded, refresh_poll_events-InvOrEnded}
use irc.Loop.Steady.Steps.{ready-Steady, finish_all-Steady}
use irc.Descriptors.{
  Traced, traced_disconnect, traced_disconnect_all, traced_reap, traced_accept, Outcome, goes_on,
  threw, traced_event, traced_events, traced_round, traced_turn, traced_run,
}
use irc.Descriptors.Agrees.{accept-server, disconnect-server, Outcome-cases}
use irc.Descriptors.Tracked.{
  Holds-same, Balanced, accept-Balanced, Steady-Balanced, disconnect-Balanced,
}

-- The descriptor that `accept` returns is not open already.
abbrev pub is_fresh_event : Event → Traced → Bool
is_fresh_event (incoming (connection fd ok ip)) d = not (contains fd d.sockets.open_fds)
is_fresh_event _ d = true

unfoldable pub is_fresh : List Event → Traced → Bool
is_fresh [] d = true
is_fresh (e ∷ es) d =
    is_fresh_event e d && elim (traced_event e d) [ threw b ↦ true | goes_on b ↦ is_fresh es b ]

abbrev pub is_fresh_turn : Poll → Traced → Bool
is_fresh_turn poll_interrupted d = true
is_fresh_turn poll_failed d = true
is_fresh_turn (reports es) d = elim (refresh_poll_events d.server) [
  | none ↦ true
  | some refreshed ↦ is_fresh es (record d { server = refreshed })
]

unfoldable pub is_fresh_run : List Poll → Traced → Bool
is_fresh_run [] d = true
is_fresh_run (p ∷ polls) d =
    is_fresh_turn p d
    && elim (traced_turn p d) [ threw b ↦ true | goes_on b ↦ is_fresh_run polls b ]

pub record Tracked (d : Traced) : Type 0 where
  pub inv : Inv (d.server)
  pub balanced : Balanced d

-- Where the loop goes on and where an exception leaves it.
abbrev pub after : Outcome → Traced
after (goes_on d) = d
after (threw d) = d

disconnect-Tracked : (fd : ℕ) (d : Traced) → Tracked d → Tracked (traced_disconnect fd d)
disconnect-Tracked fd d h = record {
  inv = rw (disconnect-server fd d) (disconnect_client-Inv fd (d.server) h.inv);
  balanced = disconnect-Balanced fd d h.inv h.balanced;
}

disconnect_all-Tracked :
    (xs : List ℕ) (d : Traced) → Tracked d → Tracked (traced_disconnect_all xs d)
unfolding traced_disconnect_all
disconnect_all-Tracked [] d h = h
disconnect_all-Tracked (x ∷ xs) d h =
    disconnect_all-Tracked xs (traced_disconnect x d) (disconnect-Tracked x d h)

reap-Tracked : (d : Traced) → Tracked d → Tracked (traced_reap d)
unfolding traced_reap
reap-Tracked d h = disconnect_all-Tracked _ _ (record {
  inv = finish_all-Inv (d.server) h.inv;
  balanced = Steady-Balanced d _ (finish_all-Steady (d.server)) h.balanced;
})

event-Balanced :
    (e : Event) (d : Traced)
    → is_fresh_event e d ≡ true
    → Tracked d
    → Balanced (after (traced_event e d))
unfolding traced_event
event-Balanced (incoming no_connection) d f h = unfold traced_accept in h.balanced
event-Balanced (incoming (connection fd ok ip)) d f h =
    accept-Balanced fd ok ip d (ground arith) h.balanced
event-Balanced listen_error d f h = h.balanced
event-Balanced (ready fd r w e) d f h =
    Steady-Balanced d _ (ready-Steady fd r w e (d.server) h.inv) h.balanced

event-Tracked :
    (e : Event) (d : Traced)
    → is_fresh_event e d ≡ true
    → Tracked d
    → Tracked (after (traced_event e d))
unfolding traced_event handle_event
event-Tracked (incoming a) d f h = record {
  inv = rw (accept-server a d) (accept_new_client-Inv a (d.server) h.inv);
  balanced = event-Balanced (incoming a) d f h;
}
event-Tracked listen_error d f h = h
event-Tracked (ready fd r w e) d f h = record {
  inv = handle_event-InvOrEnded (ready fd r w e) (d.server) h.inv;
  balanced = event-Balanced (ready fd r w e) d f h;
}

events-Tracked :
    (es : List Event) (d : Traced)
    → is_fresh es d ≡ true
    → Tracked d
    → Tracked (after (traced_events es d))
unfolding traced_events is_fresh
events-Tracked [] d f h = h
events-Tracked (e ∷ es) d f h =
    let one = event-Tracked e d (ground arith) h in
    elim (Outcome-cases (traced_event e d)) [
      | inl (b, g) ↦
          rw (g, traced_events) (events-Tracked es b (ground (arith, g, f)) (rw g at one))
      | inr (b, g) ↦ rw (g, traced_events) (rw g at one)
    ]

reaped-Tracked :
    (o : Outcome)
    → Tracked (after o)
    → Tracked (after (elim o [ threw b ↦ threw b | goes_on b ↦ goes_on (traced_reap b) ]))
reaped-Tracked (goes_on d) h = reap-Tracked d h
reaped-Tracked (threw d) h = h

if-Tracked :
    (b : Bool) (o p : Outcome)
    → Tracked (after o)
    → Tracked (after p)
    → Tracked (after (if b then o else p))
if-Tracked true o p h g = h
if-Tracked false o p h g = g

refreshed_fields :
    (s t : Server)
    → refresh_poll_events s ≡ some t
    → (t.clients ≡ s.clients) × (t.listen_fd ≡ s.listen_fd)
unfolding refresh_poll_events
refreshed_fields s t e = elim (Option-cases (refresh_entries s.listen_fd s.clients s.poll_fds)) [
  | inl ended ↦ absurd (ground (arith, ended, e))
  | inr (ps, done) ↦ (ground (arith, done, e), ground (arith, done, e))
]

-- The refreshed entries say nothing about sockets.
refreshed-Tracked :
    (d : Traced) (t : Server)
    → refresh_poll_events (d.server) ≡ some t
    → Tracked d
    → Tracked (record d { server = t })
refreshed-Tracked d t e h =
    let (same, listen) = refreshed_fields (d.server) t e in
    record {
      inv = rw e at (refresh_poll_events-InvOrEnded (d.server) h.inv);
      balanced = record {
        apart = rw (same, listen) h.balanced.apart;
        held = Holds-same _ _ (d.sockets) h.balanced.held (λ x. rw (same, listen) refl);
      };
    }

round-Tracked :
    (es : List Event) (d : Traced)
    → is_fresh_turn (reports es) d ≡ true
    → Tracked d
    → Tracked (after (traced_round es d))
unfolding traced_round
round-Tracked es d f h = elim (Option-cases (refresh_poll_events d.server)) [
  | inl ended ↦ rw (ended, traced_round) h
  | inr (t, e) ↦
      let b : Traced = record d { server = t } in
      let g = refreshed-Tracked d t e h in
      let fresh : is_fresh es b ≡ true = ground (arith, f, e) in
      rw (e, traced_round)
        (if-Tracked (is_empty t.poll_fds) (threw b) _ g
          (reaped-Tracked (traced_events es b) (events-Tracked es b fresh g)))
]

turn-Tracked :
    (p : Poll) (d : Traced)
    → is_fresh_turn p d ≡ true
    → Tracked d
    → Tracked (after (traced_turn p d))
unfolding traced_turn
turn-Tracked poll_interrupted d f h = elim (Option-cases (refresh_poll_events d.server)) [
  | inl ended ↦ rw (ended, traced_turn) h
  | inr (t, e) ↦
      let g = refreshed-Tracked d t e h in
      rw (e, traced_turn) (if-Tracked (is_empty t.poll_fds) (threw _) (goes_on _) g g)
]
turn-Tracked poll_failed d f h = h
turn-Tracked (reports es) d f h = round-Tracked es d f h

-- From a state with the invariant whose open sockets are the listening socket's and the clients':
-- whatever `poll`, `accept`, `recv` and `send` answer, save that `accept` returns no descriptor that
-- is open, the loop ends in a state of the same kind, by the shutdown flag or by an exception, and
-- has called `close` for no descriptor that was not open.
pub run-Tracked :
    (polls : List Poll) (d : Traced)
    → is_fresh_run polls d ≡ true
    → Tracked d
    → Tracked (after (traced_run polls d))
unfolding traced_run is_fresh_run
run-Tracked [] d f h = h
run-Tracked (p ∷ polls) d f h =
    let one = turn-Tracked p d (ground arith) h in
    elim (Outcome-cases (traced_turn p d)) [
      | inl (b, g) ↦ rw (g, traced_run) (run-Tracked polls b (ground (arith, g, f)) (rw g at one))
      | inr (b, g) ↦ rw (g, traced_run) (rw g at one)
    ]
