-- ===== src/Descriptors/Agrees.antt =====
-- src/server/Server.cpp: with its sockets the loop does what it does without them.
use irc.Base.{
  ℕ, ◌≡◌, refl, ap, ◌∙◌, ◌⊎◌, Bool, true, false, List, [], ◌∷◌, Option, none, some, arith, is_empty,
  if◌then◌else◌, Option-cases, inl, inr,
}
use irc.Text.{int_key, text_key}
use irc.Client.{Client, new_client}
use irc.Server.{Server}
use irc.Loop.{
  Accepted, no_connection, connection, register_client, admit_client, accept_new_client,
  disconnect_client, disconnect_all, reap_dead_clients, refresh_poll_events,
}
use irc.Loop.Events.{
  Event, incoming, listen_error, ready, handle_event, handle_events, round, Poll, poll_interrupted,
  poll_failed, reports, turn, run,
}
use irc.Descriptors.{
  Traced, traced_register, traced_admit, traced_connection, traced_accept, traced_disconnect,
  traced_disconnect_all, traced_reap, Outcome, goes_on, threw, traced_event, traced_events,
  traced_round, traced_turn, traced_run, open_socket,
}

-- The server of an outcome, `none` after an exception.
abbrev pub server_of : Outcome → Option Server
server_of (goes_on d) = some d.server
server_of (threw d) = none

register-server :
    (fd : ℕ) (c : Option Client) (d : Traced)
    → (traced_register fd c d).server ≡ register_client fd c d.server
unfolding traced_register register_client
register-server fd none d = refl
register-server fd (some c) d = refl

pub accept-server :
    (a : Accepted) (d : Traced) → (traced_accept a d).server ≡ accept_new_client a d.server
unfolding traced_accept accept_new_client traced_connection traced_admit admit_client
accept-server no_connection d = refl
accept-server (connection fd ok none) d = ground arith
accept-server (connection fd ok (some ip)) d =
    ground (
      arith,
      register-server fd (new_client fd ip) (record d { sockets = open_socket fd d.sockets }),
    )

pub disconnect-server :
    (fd : ℕ) (d : Traced) → (traced_disconnect fd d).server ≡ disconnect_client fd d.server
unfolding traced_disconnect disconnect_client
disconnect-server fd d = ground arith

disconnect_all-server :
    (fds : List ℕ) (d : Traced) → (traced_disconnect_all fds d).server ≡ disconnect_all fds d.server
unfolding traced_disconnect_all disconnect_all
disconnect_all-server [] d = refl
disconnect_all-server (fd ∷ fds) d =
    disconnect_all-server fds (traced_disconnect fd d)
    ∙ ap (disconnect_all fds) (disconnect-server fd d)

pub reap-server : (d : Traced) → (traced_reap d).server ≡ reap_dead_clients d.server
unfolding traced_reap reap_dead_clients
reap-server d = disconnect_all-server _ _

pub event-server : (e : Event) (d : Traced) → server_of (traced_event e d) ≡ handle_event e d.server
unfolding traced_event handle_event
event-server (incoming a) d = ap some (accept-server a d)
event-server listen_error d = refl
event-server (ready fd r w e) d = refl

-- Both go on in the same way, or end.
continue-server :
    (o : Outcome) (p : Option Server) (f : Traced → Outcome) (g : Server → Option Server)
    → server_of o ≡ p
    → ((d : Traced) → server_of (f d) ≡ g d.server)
    → server_of (elim o [ threw b ↦ threw b | goes_on b ↦ f b ])
      ≡ (elim p [ none ↦ none | some t ↦ g t ])
continue-server (goes_on d) p f g e h = rw (← e) (h d)
continue-server (threw d) p f g e h = rw (← e) refl

events-server :
    (es : List Event) (d : Traced) → server_of (traced_events es d) ≡ handle_events es d.server
unfolding traced_events handle_events
events-server [] d = refl
events-server (e ∷ es) d =
    continue-server (traced_event e d) _ (traced_events es) (handle_events es) (event-server e d)
      (events-server es)

unless-server :
    (b : Bool) (o r : Outcome) (p : Option Server)
    → server_of r ≡ none
    → server_of o ≡ p
    → server_of (if b then r else o) ≡ (if b then none else p)
unless-server true o r p n e = n
unless-server false o r p n e = e

round-server : (es : List Event) (d : Traced) → server_of (traced_round es d) ≡ round es d.server
unfolding traced_round round
round-server es d = elim (Option-cases (refresh_poll_events d.server)) [
  | inl ended ↦ rw (ended, round, traced_round) refl
  | inr (t, e) ↦
      let b : Traced = record d { server = t } in
      rw (e, round, traced_round)
        (unless-server (is_empty t.poll_fds) _ _ _ refl (
          continue-server (traced_events es b) _ (λ b. goes_on (traced_reap b))
            (λ t. some (reap_dead_clients t)) (events-server es b) (λ b. ap some (reap-server b))))
]

turn-server : (p : Poll) (d : Traced) → server_of (traced_turn p d) ≡ turn p d.server
unfolding traced_turn turn
turn-server poll_interrupted d = elim (Option-cases (refresh_poll_events d.server)) [
  | inl ended ↦ rw (ended, turn, traced_turn) refl
  | inr (t, e) ↦ rw (e, turn, traced_turn) (unless-server (is_empty t.poll_fds) _ _ _ refl refl)
]
turn-server poll_failed d = refl
turn-server (reports es) d = round-server es d

run-server : (polls : List Poll) (d : Traced) → server_of (traced_run polls d) ≡ run polls d.server
unfolding traced_run run
run-server [] d = refl
run-server (p ∷ polls) d =
    continue-server (traced_turn p d) _ (traced_run polls) (run polls) (turn-server p d)
      (run-server polls)

pub Outcome-cases :
    (o : Outcome) → ((d : Traced) × (o ≡ goes_on d)) ⊎ ((d : Traced) × (o ≡ threw d))
Outcome-cases (goes_on d) = inl (d, refl)
Outcome-cases (threw d) = inr (d, refl)
