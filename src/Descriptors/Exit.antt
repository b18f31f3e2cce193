-- ===== src/Descriptors/Exit.antt =====
-- When the process ends, every socket that it opened has been closed once.
use mathlib.Core.Path.{subst}
use irc.Base.{
  ℕ, ◌≡◌, refl, Bool, true, false, ◌||◌, List, [], ◌∷◌, Option, none, some, arith, contains, ◌==◌,
  Option-cases, inl, inr,
}
use irc.Text.{Text, int_key, text_key}
use irc.Map.{Map, lookup}
use irc.Map.Laws.{has, Entries}
use irc.Client.{Client}
use irc.Server.{Server}
use irc.Server.Find.{Sorted, lookup_below}
use irc.Policy.Invariant.Clients.{ClientOk}
use irc.Loop.Events.{Poll}
use irc.Startup.{
  Unstarted, SignalCalls, SocketCalls, setup_signals, setup_socket, read_server_arguments,
}
use irc.Startup.Service.{started, setup_socket-some, started-Inv}
use irc.Descriptors.{
  Sockets, delete_client, no_sockets, open_socket, close_socket, Traced, Outcome, goes_on, threw,
  traced_run, delete_clients, close_listening, destroy_server, finish, listen_and_run, main_trace,
}
use irc.Descriptors.Tracked.{Holds, Holds-same, close_socket-Holds}
use irc.Descriptors.Running.{is_fresh_run, Tracked, after, run-Tracked}

delete_clients-Holds :
    (listen : ℕ) (m : Map ℕ Client) (k : Sockets)
    → Sorted m
    → Entries ClientOk m
    → has listen m ≡ false
    → Holds (λ x. x == listen || has x m) k
    → Holds (λ x. x == listen) (delete_clients m k)
unfolding delete_clients delete_client has lookup
delete_clients-Holds listen [] k s o n h = Holds-same _ _ k h (λ x. ground arith)
delete_clients-Holds listen ((fd, c) ∷ m) k s o n h = rw (o.0.own_fd) (
    delete_clients-Holds listen m (close_socket fd k) s.1 o.1 (ground (arith, n)) (
      Holds-same _ _ (close_socket fd k)
        (close_socket-Holds fd (λ x. x == listen || has x ((fd, c) ∷ m)) k (ground arith) h)
        (λ x. ground (arith, n, lookup_below fd fd m s.0 (omega arith)))))

-- With nothing held nothing is open.
nothing_open : (xs : List ℕ) → ((x : ℕ) → contains x xs ≡ false) → xs ≡ []
nothing_open [] h = refl
nothing_open (x ∷ xs) h = absurd (ground (arith, h x))

Holds-nothing : (k : Sockets) → Holds (λ x. false) k → k ≡ no_sockets
Holds-nothing k h = ground (arith, nothing_open k.open_fds h.held_lem, h.faultless)

close_one : (fd : ℕ) (k : Sockets) → Holds (λ x. x == fd) k → close_socket fd k ≡ no_sockets
close_one fd k h = Holds-nothing (close_socket fd k) (
    Holds-same _ _ (close_socket fd k) (close_socket-Holds fd (λ x. x == fd) k (ground arith) h)
      (λ x. ground arith))

destroy_server-Tracked :
    (d : Traced)
    → Tracked d
    → destroy_server d.server.clients (some d.server.listen_fd) d.sockets ≡ no_sockets
unfolding destroy_server close_listening
destroy_server-Tracked d h =
    close_one d.server.listen_fd (delete_clients d.server.clients d.sockets) (
      delete_clients-Holds d.server.listen_fd d.server.clients d.sockets h.inv.nicks_ok.sorted
        h.inv.clients_ok h.balanced.apart h.balanced.held)

finish-Tracked : (o : Outcome) → Tracked (after o) → (finish o).left ≡ no_sockets
unfolding finish
finish-Tracked (goes_on d) h = destroy_server-Tracked d h
finish-Tracked (threw d) h = destroy_server-Tracked d h

started-Tracked :
    (port : ℕ) (password : Text) (fd : ℕ)
    → Tracked (record { server = started port password fd; sockets = open_socket fd no_sockets })
unfolding has lookup
started-Tracked port password fd = record {
  inv = started-Inv port password fd;
  balanced = record {
    apart = refl;
    held = record { faultless = refl; distinct = (refl, tt); held_lem = λ x. ground arith };
  };
}

-- `accept` returns no descriptor that is open, as long as the server runs.
unfoldable pub is_fresh_main : SocketCalls → List Poll → Option (List (Option Text)) → Bool
is_fresh_main sockets polls argv = elim (read_server_arguments argv) [
  | none ↦ true
  | some s ↦ elim (setup_socket sockets s) [
    | none ↦ true
    | some t ↦
        is_fresh_run polls (record { server = t; sockets = open_socket t.listen_fd no_sockets })
  ]
]

left-listen_and_run :
    (sockets : SocketCalls) (polls : List Poll) (s : Unstarted)
    → ((t : Server)
        → setup_socket sockets s ≡ some t
        → is_fresh_run polls (record { server = t; sockets = open_socket t.listen_fd no_sockets })
          ≡ true)
    → (listen_and_run sockets polls s).left ≡ no_sockets
unfolding listen_and_run
left-listen_and_run sockets polls s fresh = elim (Option-cases sockets.socket) [
  | inl refused ↦
      rw (refused, listen_and_run) (unfold destroy_server close_listening delete_clients in refl)
  | inr (fd, opened) ↦ elim (Option-cases (setup_socket sockets s)) [
    | inl ended ↦
        let closed_again : destroy_server [] (some fd) (open_socket fd no_sockets) ≡ no_sockets =
          unfold destroy_server close_listening delete_clients close_socket in ground arith in
        ground (arith, ended, opened, closed_again)
    | inr (t, e) ↦
        let (fd', opened', same) = setup_socket-some sockets s t e in
        let own : fd' ≡ fd = ground (arith, opened, opened') in
        let d : Traced = record { server = t; sockets = open_socket fd no_sockets } in
        let listening : t.listen_fd ≡ fd = ground (arith, same, own) in
        let begin : Tracked d = rw (same, own) (started-Tracked s.port s.password fd) in
        ground (
          arith,
          e,
          opened,
          finish-Tracked (traced_run polls d) (
              run-Tracked polls d
                (subst
                  (λ n.
                    is_fresh_run polls (record { server = t; sockets = open_socket n no_sockets })
                    ≡ true)
                  listening (fresh t e))
                begin),
        )
  ]
]

-- Whatever the arguments of the program are, and whatever its calls answer, save that `accept`
-- returns no descriptor that is open: when the program ends, by the shutdown flag, by an exception
-- or because it has not started, every socket that it opened is closed, and it has called `close`
-- for no descriptor that was not open.
pub left-main_trace :
    (signals : SignalCalls) (sockets : SocketCalls) (polls : List Poll)
    (argv : Option (List (Option Text)))
    → is_fresh_main sockets polls argv ≡ true
    → (main_trace signals sockets polls argv).left ≡ no_sockets
unfolding main_trace is_fresh_main
left-main_trace signals sockets polls argv fresh =
    elim (Option-cases (read_server_arguments argv)) [
      | inl reported ↦ rw (reported, main_trace) refl
      | inr (s, accepted) ↦ elim (Option-cases (setup_signals signals)) [
        | inl failed ↦
            rw (accepted, failed, main_trace)
              (unfold destroy_server close_listening delete_clients in refl)
        | inr (done, ok) ↦
            rw (accepted, ok, main_trace)
              (left-listen_and_run sockets polls s (λ t e. ground (arith, fresh, accepted, e)))
      ]
    ]
