-- ===== src/Loop/Removal.antt =====
-- `reapDeadClients`: exactly the clients that are dead, or closing with nothing left to send, leave.
use irc.Base.{
  ℕ, ◌≡◌, ◌≤◌, refl, Bool, false, not, ◌&&◌, ◌||◌, List, [], ◌∷◌, none, some, arith, contains, ◌==◌,
  Option-cases, inl, inr,
}
use irc.Text.{int_key, text_key}
use irc.Map.{Map, lookup}
use irc.Map.Laws.{has}
use irc.Client.{Client, has_pending_output, mark_dead}
use irc.Server.{Server}
use irc.Server.Find.{Above, Sorted}
use irc.Policy.Invariant.All.{Inv}
use irc.Loop.{
  finish_closing, finish_all, dead_fds, remove_client, announce_quit, disconnect_client,
  disconnect_all, reap_dead_clients,
}
use irc.Loop.Invariant.Leave.{has-erase, lookup-finish_all, finish_all-Inv}
use irc.Loop.Steady.{Steady-has}
use irc.Loop.Steady.Steps.{announce_quit-Steady}

pub has-disconnect_client :
    (x fd : ℕ) (s : Server)
    → has x (disconnect_client fd s).clients ≡ (not (x == fd) && has x s.clients)
unfolding disconnect_client remove_client has
has-disconnect_client x fd s = elim (Option-cases (lookup fd s.clients)) [
  | inl gone ↦ rw (gone, disconnect_client) (ground (arith, gone))
  | inr (c, there) ↦
      rw (there, disconnect_client)
        (ground (
          arith,
          has-erase x fd (announce_quit fd c s).clients,
          Steady-has x s (announce_quit fd c s) (announce_quit-Steady fd c s),
        ))
]

has-disconnect_all :
    (x : ℕ) (fds : List ℕ) (s : Server)
    → has x (disconnect_all fds s).clients ≡ (not (contains x fds) && has x s.clients)
unfolding disconnect_all
has-disconnect_all x [] s = refl
has-disconnect_all x (fd ∷ fds) s =
    ground (arith, has-disconnect_all x fds (disconnect_client fd s), has-disconnect_client x fd s)

contains-dead_fds_below :
    (x b : ℕ) (m : Map ℕ Client) → Above b m → x ≤ b → contains x (dead_fds m) ≡ false
unfolding dead_fds
contains-dead_fds_below x b [] a h = refl
contains-dead_fds_below x b ((k, c) ∷ m) a h =
    ground (arith, contains-dead_fds_below x b m a.1, a.0)

contains-dead_fds :
    (x : ℕ) (m : Map ℕ Client)
    → Sorted m
    → contains x (dead_fds m) ≡ (elim (lookup x m) [ none ↦ false | some c ↦ c.dead ])
unfolding dead_fds lookup
contains-dead_fds x [] s = refl
contains-dead_fds x ((k, c) ∷ m) s =
    ground (arith, contains-dead_fds x m s.1, contains-dead_fds_below x k m s.0)

-- The client is dead, or closing and has nothing left to send.
abbrev pub is_finished : Client → Bool
is_finished c = c.dead || c.closing && not (has_pending_output c)

dead-finish_closing : (c : Client) → (finish_closing c).dead ≡ is_finished c
unfolding finish_closing mark_dead
dead-finish_closing c = ground arith

-- In a server with the invariant: after the round's clients have been removed, a client of the
-- server is still there exactly if it was neither dead nor closing with nothing left to send.
pub has-reap_dead_clients :
    (x : ℕ) (c : Client) (s : Server)
    → Inv s
    → lookup x s.clients ≡ some c
    → has x (reap_dead_clients s).clients ≡ not (is_finished c)
unfolding reap_dead_clients has
has-reap_dead_clients x c s i there =
    let m = finish_all s.clients in
    let i' = finish_all-Inv s i in
    ground (
      arith,
      has-disconnect_all x (dead_fds m) (record s { clients = m }),
      contains-dead_fds x m i'.nicks_ok.sorted,
      lookup-finish_all x s.clients,
      dead-finish_closing c,
      there,
    )
