-- ===== src/Loop/Poll.antt =====
-- The poll entries: each is the listening socket's or a client's, no descriptor has two, and the
-- listening socket, which is no client, has one.
pub mod Rounds
pub mod Survival
use mathlib.Core.Option
use irc.Base.{
  ℕ, ◌≡◌, refl, sym, ap, ◌∙◌, Bool, true, false, not, ◌&&◌, ◌||◌, List, [], ◌∷◌, ◌++◌, Option, none,
  some, arith, contains, contains-append, Distinct, concat-Distinct, ◌==◌, if◌then◌else◌,
  Option-cases, Bool-cases, inl, inr,
}
use irc.Text.{Text, int_key, text_key}
use irc.Map.{Map, lookup, insert, erase, modify}
use irc.Map.Laws.{has, has-modify, lookup-insert, lookup-erase}
use irc.Client.{Client}
use irc.Server.{
  Server, PollFd, tell, broadcast, is_sender, find_channel, create_channel, remove_channel,
  update_client, update_channel,
}
use irc.Command.Dispatch.{process_line}
use irc.Parser.{parse}
use irc.Policy
use irc.Policy.Names.{Named}
use irc.Policy.Refine.Dispatch.{process_line-Acts}
use irc.Policy.Invariant.Channels.{has-Act}
use irc.Loop.Steady.{Steady, Steady-has}
use irc.Loop.{client_events, refresh_entries, refresh_poll_events, erase_poll_fd}

-- The descriptor of the entry is known.
abbrev pub known : Server → PollFd → Bool
known s p = p.fd == s.listen_fd || has p.fd s.clients

abbrev pub AllKnown : Server → List PollFd → Type 0
AllKnown s [] = Unit
AllKnown s (p ∷ ps) = (known s p ≡ true) × AllKnown s ps

abbrev pub fds : List PollFd → List ℕ
fds [] = []
fds (p ∷ ps) = p.fd ∷ fds ps

pub record PollOk (s : Server) : Type 0 where
  pub all_known : AllKnown s s.poll_fds
  pub distinct : Distinct (fds s.poll_fds)
  pub listening : contains s.listen_fd (fds s.poll_fds) ≡ true
  pub no_client : has s.listen_fd s.clients ≡ false

AllKnown-Steady : (s t : Server) (ps : List PollFd) → Steady s t → AllKnown s ps → AllKnown t ps
AllKnown-Steady s t [] e a = tt
AllKnown-Steady s t (p ∷ ps) e a =
    (ground (arith, Steady-has p.fd s t e, e.listen_same), AllKnown-Steady s t ps e a.1)

pub Steady-PollOk : (s t : Server) → Steady s t → PollOk s → PollOk t
Steady-PollOk s t e o = record {
  all_known = rw (e.entries_same) (AllKnown-Steady s t s.poll_fds e o.all_known);
  distinct = rw (e.entries_same) o.distinct;
  listening = rw (e.entries_same, e.listen_same) o.listening;
  no_client = rw (e.listen_same) (Steady-has s.listen_fd s t e ∙ o.no_client);
}
