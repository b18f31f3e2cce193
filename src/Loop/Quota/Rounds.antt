-- ===== src/Loop/Quota/Rounds.antt =====
-- The limits on connections over the whole loop.
use irc.Base.{List, Option, none, some, Option-cases, inl, inr}
use irc.Text.{int_key, text_key}
use irc.Server.{Server}
use irc.Policy.Invariant.All.{Inv}
use irc.Loop.{refresh_entries, refresh_poll_events, reap_dead_clients}
use irc.Loop.Carried.{OrEnded, Carried, run-OrEnded}
use irc.Loop.Events.{Event, incoming, listen_error, ready, handle_event, Poll, run}
use irc.Loop.Invariant.Leave.{reap_dead_clients-Inv}
use irc.Loop.Invariant.Round.{handle_event-InvOrEnded, refresh_poll_events-InvOrEnded}
use irc.Loop.Steady.Steps.{ready-Steady}
use irc.Loop.Quota.{WithinQuota, accept_new_client-WithinQuota}
use irc.Loop.Quota.Steps.{Steady-Fewer, reap_dead_clients-Fewer, Fewer-WithinQuota}

-- The server is within its limits, unless it has ended with an exception.
abbrev pub QuotaOrEnded : Option Server → Type 0
QuotaOrEnded = OrEnded WithinQuota

-- The limits need the invariant beside them.
abbrev Limited : Server → Type 0
Limited s = Inv s × WithinQuota s

both : (o : Option Server) → OrEnded Inv o → OrEnded WithinQuota o → OrEnded Limited o
both none i q = tt
both (some t) i q = (i, q)

quota_of : (o : Option Server) → OrEnded Limited o → OrEnded WithinQuota o
quota_of none h = tt
quota_of (some t) h = h.1

handle_event-QuotaOrEnded :
    (e : Event) (s : Server) → Inv s → WithinQuota s → QuotaOrEnded (handle_event e s)
unfolding handle_event
handle_event-QuotaOrEnded (incoming a) s i q = accept_new_client-WithinQuota a s q
handle_event-QuotaOrEnded listen_error s i q = tt
handle_event-QuotaOrEnded (ready fd r w e) s i q =
    Fewer-WithinQuota s _ (Steady-Fewer s _ (ready-Steady fd r w e s i)) q

refresh_poll_events-QuotaOrEnded :
    (s : Server) → WithinQuota s → QuotaOrEnded (refresh_poll_events s)
unfolding refresh_poll_events
refresh_poll_events-QuotaOrEnded s q =
    elim (Option-cases (refresh_entries s.listen_fd s.clients s.poll_fds)) [
      | inl ended ↦ rw (ended, refresh_poll_events) tt
      | inr (ps, e) ↦ rw (e, refresh_poll_events) (record { total = q.total; per_ip = q.per_ip })
    ]

Limited-Carried : Carried Limited
Limited-Carried = record {
  event = λ e s h.
      both (handle_event e s) (handle_event-InvOrEnded e s h.0)
        (handle_event-QuotaOrEnded e s h.0 h.1);
  refresh = λ s h.
      both (refresh_poll_events s) (refresh_poll_events-InvOrEnded s h.0)
        (refresh_poll_events-QuotaOrEnded s h.1);
  reap = λ s h. (
    reap_dead_clients-Inv s h.0,
    Fewer-WithinQuota s (reap_dead_clients s) (reap_dead_clients-Fewer s) h.1,
  );
}

-- From a state with the invariant and within its limits (512 clients, and 128 alive from each
-- address), over any number of turns of the loop, whatever `poll`, `accept`, `recv` and `send`
-- report in them, the server stays within its limits, unless one of the turns ends it with an
-- exception.
pub run-QuotaOrEnded :
    (polls : List Poll) (s : Server) → Inv s → WithinQuota s → QuotaOrEnded (run polls s)
run-QuotaOrEnded polls s i q = quota_of (run polls s) (run-OrEnded Limited-Carried polls s (i, q))
