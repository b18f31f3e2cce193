-- ===== src/Loop/Poll/Rounds.antt =====
-- The refresh of the poll entries, and what happens to them when clients come and leave.
use irc.Base.{
  ℕ, ◌≡◌, refl, ap, ◌∙◌, true, false, not, ◌&&◌, List, [], ◌∷◌, ◌++◌, Option, none, some, arith,
  contains, contains-append, Distinct, concat-Distinct, ◌==◌, Option-cases, Bool-cases, inl, inr,
}
use irc.Text.{int_key, text_key}
use irc.Map.{Map, lookup, insert}
use irc.Map.Laws.{has, has-lookup, lookup-insert}
use irc.Client.{Client}
use irc.Server.{Server, PollFd}
use irc.Loop.{
  register_client, client_events, refresh_entries, refresh_poll_events, erase_poll_fd,
  remove_client, announce_quit, disconnect_client, disconnect_all, reap_dead_clients,
}
use irc.Loop.Invariant.{has-insert}
use irc.Loop.Invariant.Leave.{has-erase}
use irc.Loop.Poll.{AllKnown, fds, PollOk, Steady-PollOk}
use irc.Loop.Steady.{Steady-has}
use irc.Loop.Steady.Steps.{announce_quit-Steady, finish_all-Steady}

fd-client_events : (c : Client) (fd : ℕ) → (client_events c fd).fd ≡ fd
fd-client_events c fd = ground arith

-- Whether entries are known does not depend on the entries of the state.
moved :
    (s : Server) (qs ps : List PollFd) → AllKnown s ps → AllKnown (record s { poll_fds = qs }) ps
moved s qs [] k = tt
moved s qs (p ∷ ps) k = (k.0, moved s qs ps k.1)

-- If every entry is known, each is refreshed, under its own descriptor.
refresh_entries-some :
    (s : Server) (ps : List PollFd)
    → AllKnown s ps
    → (qs : List PollFd) × (refresh_entries s.listen_fd s.clients ps ≡ some qs)
      × (fds qs ≡ fds ps)
      × AllKnown s qs
unfolding refresh_entries has
refresh_entries-some s [] a = ([], refl, refl, tt)
refresh_entries-some s (p ∷ ps) a =
    let (qs, e, f, k) = refresh_entries-some s ps a.1 in
    elim (Bool-cases (p.fd == s.listen_fd)) [
      | inl own ↦ (
        record { fd = p.fd; poll_in = true; poll_out = false } ∷ qs,
        ground (arith, e),
        ap (◌∷◌ p.fd) f,
        (a.0, k),
      )
      | inr other ↦ elim (Option-cases (lookup p.fd s.clients)) [
        | inl gone ↦ absurd (ground (arith, a.0))
        | inr (c, there) ↦ (
          client_events c p.fd ∷ qs,
          ground (arith, e),
          ground (arith, fd-client_events c p.fd, f),
          (ground (arith, fd-client_events c p.fd, a.0), k),
        )
      ]
    ]

-- In a state whose poll entries are in order the refresh does not end the server, and it keeps
-- the entries in order.
pub refresh_poll_events-PollOk :
    (s : Server) → PollOk s → (t : Server) × (refresh_poll_events s ≡ some t) × PollOk t
unfolding refresh_poll_events
refresh_poll_events-PollOk s o =
    let (qs, e, f, k) = refresh_entries-some s s.poll_fds o.all_known in
    (
      record s { poll_fds = qs },
      rw (e, refresh_poll_events),
      record {
        all_known = moved s qs qs k;
        distinct = rw f o.distinct;
        listening = rw f o.listening;
        no_client = o.no_client;
      },
    )

fds-append : (ps qs : List PollFd) → fds (ps ++ qs) ≡ fds ps ++ fds qs
fds-append [] qs = refl
fds-append (p ∷ ps) qs = ap (◌∷◌ p.fd) (fds-append ps qs)

appended :
    (s t : Server) (ps : List PollFd) (p : PollFd)
    → t.listen_fd ≡ s.listen_fd
    → ((x : ℕ) → has x s.clients ≡ true → has x t.clients ≡ true)
    → has p.fd t.clients ≡ true
    → AllKnown s ps
    → AllKnown t (ps ++ p ∷ [])
appended s t [] p l h n k = (ground arith, tt)
appended s t (q ∷ ps) p l h n k = (ground (arith, h q.fd, k.0), appended s t ps p l h n k.1)

has_inserted : (fd : ℕ) (c : Client) (m : Map ℕ Client) → has fd (insert fd c m) ≡ true
unfolding has
has_inserted fd c m = ground (arith, lookup-insert fd fd c m)

has_other :
    (fd x : ℕ) (c : Client) (m : Map ℕ Client)
    → (x == fd) ≡ false
    → has x m ≡ false
    → has x (insert fd c m) ≡ false
unfolding has
has_other fd x c m n h = ground (arith, lookup-insert x fd c m)

other_member :
    (x y : ℕ) (xs : List ℕ) → contains x xs ≡ true → contains y xs ≡ false → (x == y) ≡ false
other_member x y [] h n = cc
other_member x y (z ∷ xs) h n = ground (arith, other_member x y xs)

-- The new client and its entry.
pub register_client-PollOk :
    (fd : ℕ) (c : Option Client) (s : Server)
    → contains fd (fds s.poll_fds) ≡ false
    → PollOk s
    → PollOk (register_client fd c s)
unfolding register_client
register_client-PollOk fd none s new o = o
register_client-PollOk fd (some c) s new o =
    let entry : PollFd = record { fd = fd; poll_in = true; poll_out = false } in
    record {
      all_known =
          appended s (register_client fd (some c) s) s.poll_fds entry refl
            (λ x h. has-insert x fd c s.clients h) (has_inserted fd c s.clients) o.all_known;
      distinct =
          rw (fds-append s.poll_fds (entry ∷ []))
            (concat-Distinct (fds s.poll_fds) fd o.distinct new);
      listening =
          rw (fds-append s.poll_fds (entry ∷ []))
            (ground (arith, contains-append s.listen_fd (fds s.poll_fds) (fd ∷ []), o.listening));
      no_client =
          has_other fd s.listen_fd c s.clients
            (other_member s.listen_fd fd (fds s.poll_fds) o.listening new) o.no_client;
    }

-- The erasure of a client takes its right to an entry, and nobody else's.
abbrev Erased : ℕ → Server → Server → Type 0
Erased fd s t =
    (t.listen_fd ≡ s.listen_fd) × ((x : ℕ) → has x t.clients ≡ (not (x == fd) && has x s.clients))

others_known :
    (fd : ℕ) (s t : Server) (ps : List PollFd)
    → Erased fd s t
    → contains fd (fds ps) ≡ false
    → AllKnown s ps
    → AllKnown t ps
others_known fd s t [] e n k = tt
others_known fd s t (p ∷ ps) e n k =
    (ground (arith, e.0, e.1 p.fd, k.0), others_known fd s t ps e (ground arith) k.1)

contains-erase_poll_fd :
    (x fd : ℕ) (ps : List PollFd)
    → contains x (fds ps) ≡ false
    → contains x (fds (erase_poll_fd fd ps)) ≡ false
unfolding erase_poll_fd
contains-erase_poll_fd x fd [] h = h
contains-erase_poll_fd x fd (p ∷ ps) h = ground (arith, contains-erase_poll_fd x fd ps)

erased :
    (fd : ℕ) (s t : Server) (ps : List PollFd)
    → Erased fd s t
    → Distinct (fds ps)
    → AllKnown s ps
    → AllKnown t (erase_poll_fd fd ps) × Distinct (fds (erase_poll_fd fd ps))
unfolding erase_poll_fd
erased fd s t [] e d k = (tt, tt)
erased fd s t (p ∷ ps) e d k = elim (Bool-cases (p.fd == fd)) [
  | inl own ↦ rw (own, erase_poll_fd) (others_known fd s t ps e (ground (arith, d.0)) k.1, d.1)
  | inr other ↦
      let (k', d') = erased fd s t ps e d.1 k.1 in
      rw (other, erase_poll_fd)
        ((ground (arith, e.0, e.1 p.fd, k.0), k'), (contains-erase_poll_fd p.fd fd ps d.0, d'))
]

other_entry :
    (x fd : ℕ) (ps : List PollFd)
    → (x == fd) ≡ false
    → contains x (fds ps) ≡ true
    → contains x (fds (erase_poll_fd fd ps)) ≡ true
unfolding erase_poll_fd
other_entry x fd [] n h = h
other_entry x fd (p ∷ ps) n h = ground (arith, other_entry x fd ps)

pub known_apart : (x y : ℕ) (m : Map ℕ Client) → has x m ≡ false → has y m ≡ true → (x == y) ≡ false
known_apart x y m n h = elim (Bool-cases (x == y)) [
  | inl same ↦ absurd (let e : x ≡ y = ground arith in let f = rw e at n in cc)
  | inr other ↦ other
]

remove_client-PollOk :
    (fd : ℕ) (s : Server) → has fd s.clients ≡ true → PollOk s → PollOk (remove_client fd s)
unfolding remove_client
remove_client-PollOk fd s there o =
    let (k, d) =
      erased fd s (remove_client fd s) s.poll_fds (refl, λ x. has-erase x fd s.clients) o.distinct
        o.all_known in
    record {
      all_known = k;
      distinct = d;
      listening =
          other_entry s.listen_fd fd s.poll_fds
            (known_apart s.listen_fd fd s.clients o.no_client there) o.listening;
      no_client = ground (arith, has-erase s.listen_fd fd s.clients, o.no_client);
    }

disconnect_client-PollOk : (fd : ℕ) (s : Server) → PollOk s → PollOk (disconnect_client fd s)
unfolding disconnect_client
disconnect_client-PollOk fd s o = elim (Option-cases (lookup fd s.clients)) [
  | inl gone ↦ rw (gone, disconnect_client) o
  | inr (c, there) ↦
      let told = announce_quit-Steady fd c s in
      rw (there, disconnect_client)
        (remove_client-PollOk fd (announce_quit fd c s)
          (Steady-has fd s (announce_quit fd c s) told ∙ has-lookup fd s.clients there)
          (Steady-PollOk s (announce_quit fd c s) told o))
]

disconnect_all-PollOk : (xs : List ℕ) (s : Server) → PollOk s → PollOk (disconnect_all xs s)
unfolding disconnect_all
disconnect_all-PollOk [] s o = o
disconnect_all-PollOk (x ∷ xs) s o =
    disconnect_all-PollOk xs (disconnect_client x s) (disconnect_client-PollOk x s o)

pub reap_dead_clients-PollOk : (s : Server) → PollOk s → PollOk (reap_dead_clients s)
unfolding reap_dead_clients
reap_dead_clients-PollOk s o = disconnect_all-PollOk _ _ (Steady-PollOk s _ (finish_all-Steady s) o)
