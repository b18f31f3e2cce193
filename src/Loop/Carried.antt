-- ===== src/Loop/Carried.antt =====
-- How a property is carried through the whole loop: by the events, the refresh of the poll entries,
-- and the removal of clients.
use irc.Base.{
  Bool, true, false, List, [], ◌∷◌, Option, none, some, is_empty, if◌then◌else◌, Option-cases, inl,
  inr,
}
use irc.Server.{Server}
use irc.Loop.{refresh_poll_events, reap_dead_clients}
use irc.Loop.Events.{
  Event, handle_event, handle_events, round, Poll, poll_interrupted, poll_failed, reports, turn,
  run,
}

-- The property holds, unless the server has ended with an exception.
abbrev pub OrEnded : (Server → Type 0) → Option Server → Type 0
OrEnded P none = Unit
OrEnded P (some t) = P t

-- What the loop asks of a property.
pub record Carried (P : Server → Type 0) : Type 0 where
  pub event : (e : Event) (s : Server) → P s → OrEnded P (handle_event e s)
  pub refresh : (s : Server) → P s → OrEnded P (refresh_poll_events s)
  pub reap : (s : Server) → P s → P (reap_dead_clients s)

module _ {P : Server → Type 0} (carried : Carried P) where
  events-OrEnded : (es : List Event) (s : Server) → P s → OrEnded P (handle_events es s)
  unfolding handle_events
  events-OrEnded [] s p = p
  events-OrEnded (e ∷ es) s p = elim (Option-cases (handle_event e s)) [
    | inl ended ↦ rw (ended, handle_events) tt
    | inr (t, handled) ↦
        rw (handled, handle_events) (events-OrEnded es t (rw handled at (carried.event e s p)))
  ]

  unless-OrEnded : (b : Bool) (o : Option Server) → OrEnded P o → OrEnded P (if b then none else o)
  unless-OrEnded true o p = tt
  unless-OrEnded false o p = p

  reaped-OrEnded :
      (o : Option Server)
      → OrEnded P o
      → OrEnded P (elim o [ none ↦ none | some t ↦ some (reap_dead_clients t) ])
  reaped-OrEnded none p = tt
  reaped-OrEnded (some t) p = carried.reap t p

  round-OrEnded : (es : List Event) (s : Server) → P s → OrEnded P (round es s)
  unfolding round
  round-OrEnded es s p = elim (Option-cases (refresh_poll_events s)) [
    | inl ended ↦ rw (ended, round) tt
    | inr (t, e) ↦
        rw (e, round)
          (unless-OrEnded (is_empty t.poll_fds) _ (
            reaped-OrEnded (handle_events es t)
              (events-OrEnded es t (rw e at (carried.refresh s p)))))
  ]

  turn-OrEnded : (p : Poll) (s : Server) → P s → OrEnded P (turn p s)
  unfolding turn
  turn-OrEnded poll_interrupted s h = elim (Option-cases (refresh_poll_events s)) [
    | inl ended ↦ rw (ended, turn) tt
    | inr (t, e) ↦
        rw (e, turn) (unless-OrEnded (is_empty t.poll_fds) (some t) (rw e at (carried.refresh s h)))
  ]
  turn-OrEnded poll_failed s h = tt
  turn-OrEnded (reports es) s h = round-OrEnded es s h

  pub run-OrEnded : (polls : List Poll) (s : Server) → P s → OrEnded P (run polls s)
  unfolding run
  run-OrEnded [] s h = h
  run-OrEnded (p ∷ polls) s h = elim (Option-cases (turn p s)) [
    | inl ended ↦ rw (ended, run) tt
    | inr (t, e) ↦ rw (e, run) (run-OrEnded polls t (rw e at (turn-OrEnded p s h)))
  ]
