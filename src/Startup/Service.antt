-- ===== src/Startup/Service.antt =====
-- The program from its arguments on: a started server is in order, and the loop keeps it so.
use irc.Base.{
  ℕ, ◌≡◌, ◌≤◌, refl, true, false, List, [], ◌∷◌, Option, some, arith, Option-cases, inl, inr,
}
use irc.Text.{Text, int_key, text_key}
use irc.Map.{lookup}
use irc.Server.{Server, PollFd}
use irc.Arguments.{parse_port, is_valid_password, parse_port_accepts}
use irc.Policy.Invariant.All.{Inv}
use irc.Loop.Events.{Poll}
use irc.Loop.Invariant.Round.{InvOrEnded, run-InvOrEnded}
use irc.Loop.Poll.{PollOk}
use irc.Loop.Poll.Survival.{is_calm_run, run-GoesOn}
use irc.Loop.Quota.{WithinQuota}
use irc.Loop.Quota.Rounds.{QuotaOrEnded, run-QuotaOrEnded}
use irc.Startup.{
  Unstarted, new_server, SignalCalls, setup_signals, SocketCalls, setup_socket, start,
  read_server_arguments, serve, main_status,
}

-- The server that a program started with success: it has no clients and no channels yet.
abbrev pub started : ℕ → Text → ℕ → Server
started port password fd = record {
  port = port;
  password = password;
  listen_fd = fd;
  poll_fds = record { fd = fd; poll_in = true; poll_out = false } ∷ [];
  clients = [];
  channels = [];
}

pub started-Inv : (port : ℕ) (password : Text) (fd : ℕ) → Inv (started port password fd)
unfolding lookup
started-Inv port password fd = record {
  named = tt;
  channels_ok = tt;
  clients_ok = tt;
  nicks_ok = record { sorted = tt; unique = λ x y c d lx ly ax ay ne e. ground arith };
}

started-PollOk : (port : ℕ) (password : Text) (fd : ℕ) → PollOk (started port password fd)
unfolding irc.Map.Laws.has lookup
started-PollOk port password fd = record {
  all_known = (ground arith, tt);
  distinct = (refl, tt);
  listening = ground arith;
  no_client = refl;
}

started-WithinQuota : (port : ℕ) (password : Text) (fd : ℕ) → WithinQuota (started port password fd)
unfolding irc.Server.count_from_ip
started-WithinQuota port password fd = record { total = ground arith; per_ip = λ ip. ground arith }

-- A socket that is set up without an exception belongs to such a server.
pub setup_socket-some :
    (sockets : SocketCalls) (s : Unstarted) (t : Server)
    → setup_socket sockets s ≡ some t
    → (fd : ℕ) × (sockets.socket ≡ some fd) × (t ≡ started s.port s.password fd)
unfolding setup_socket
setup_socket-some sockets s t e = elim (Option-cases sockets.socket) [
  | inl refused ↦ absurd (ground (arith, e, refused))
  | inr (fd, opened) ↦ (fd, opened, ground (arith, e, opened))
]

start-some :
    (signals : SignalCalls) (sockets : SocketCalls) (s : Unstarted) (t : Server)
    → start signals sockets s ≡ some t
    → (fd : ℕ) × (t ≡ started s.port s.password fd)
unfolding start
start-some signals sockets s t e = elim (Option-cases (setup_signals signals)) [
  | inl failed ↦ absurd (ground (arith, e, failed))
  | inr (done, ok) ↦
      let (fd, opened, same) = setup_socket-some sockets s t (ground (arith, e, ok)) in (fd, same)
]

start-InvOrEnded :
    (signals : SignalCalls) (sockets : SocketCalls) (s : Unstarted)
    → InvOrEnded (start signals sockets s)
start-InvOrEnded signals sockets s = elim (Option-cases (start signals sockets s)) [
  | inl ended ↦ rw ended tt
  | inr (t, e) ↦
      let (fd, fresh) = start-some signals sockets s t e in
      rw (e, fresh) (started-Inv s.port s.password fd)
]

start-QuotaOrEnded :
    (signals : SignalCalls) (sockets : SocketCalls) (s : Unstarted)
    → QuotaOrEnded (start signals sockets s)
start-QuotaOrEnded signals sockets s = elim (Option-cases (start signals sockets s)) [
  | inl ended ↦ rw ended tt
  | inr (t, e) ↦
      let (fd, fresh) = start-some signals sockets s t e in
      rw (e, fresh) (started-WithinQuota s.port s.password fd)
]

-- Whatever the arguments of the program are, and whatever the calls that set it up, `poll`,
-- `accept`, `recv` and `send` answer: when the loop has stopped, the server satisfies its
-- invariant and is within its limits (512 clients, and 128 alive from each address), unless the
-- program has reported its arguments or ended with an exception.
pub serve-InvOrEnded :
    (signals : SignalCalls) (sockets : SocketCalls) (polls : List Poll)
    (argv : Option (List (Option Text)))
    → InvOrEnded (serve signals sockets polls argv)
      × QuotaOrEnded (serve signals sockets polls argv)
unfolding serve
serve-InvOrEnded signals sockets polls argv = elim (Option-cases (read_server_arguments argv)) [
  | inl reported ↦ rw (reported, serve) (tt, tt)
  | inr (s, accepted) ↦ elim (Option-cases (start signals sockets s)) [
    | inl ended ↦ rw (accepted, ended, serve) (tt, tt)
    | inr (t, e) ↦
        let i : Inv t = rw e at (start-InvOrEnded signals sockets s) in
        let q : WithinQuota t = rw e at (start-QuotaOrEnded signals sockets s) in
        rw (accepted, e, serve) (run-InvOrEnded polls t i, run-QuotaOrEnded polls t i q)
  ]
]

-- All the calls that set up the signals, and all those on the socket `fd`, succeed.
abbrev pub all_signals : SignalCalls
all_signals = record {
  sigemptyset_ignored = true;
  sigaction_sigpipe = true;
  sigemptyset_shutdown = true;
  sigaction_sigint = true;
  sigaction_sigterm = true;
  sigaction_sigquit = true;
}

abbrev pub all_sockets : ℕ → SocketCalls
all_sockets fd = record {
  socket = some fd;
  setsockopt = true;
  fcntl = true;
  bind = λ port. true;
  listen = true;
}

constructed :
    (password : Text) (number : ℕ)
    → is_valid_password (some password) ≡ true
    → 1 ≤ number
    → number ≤ 65535
    → new_server number password ≡ some (record { port = number; password = password })
unfolding new_server is_valid_password
constructed password number w l h = ground arith

-- The constructor throws on no arguments that `main` accepts: they are the server's port and
-- password.
pub read_server_arguments-accepted :
    (program port password : Text) (number : ℕ)
    → parse_port (some port) ≡ some number
    → is_valid_password (some password) ≡ true
    → read_server_arguments (some (some program ∷ some port ∷ some password ∷ []))
      ≡ some (record { port = number; password = password })
unfolding read_server_arguments
read_server_arguments-accepted program port password number p w =
    let (a, b, c, l, h) = (parse_port_accepts port number).0 p in
    rw (p, w, read_server_arguments) (constructed password number w l h)

start-all :
    (fd port : ℕ) (password : Text)
    → start all_signals (all_sockets fd) (record { port = port; password = password })
      ≡ some (started port password fd)
unfolding start setup_signals setup_socket
start-all fd port password = refl

-- With a port and a password that are accepted, calls that succeed, and as long as `poll` does not
-- fail, the listening socket has no error and `accept` returns no descriptor that is open already,
-- the program runs until it is asked to stop, and its exit status is then 0.
pub main_status-zero :
    (fd : ℕ) (polls : List Poll) (program port password : Text) (number : ℕ)
    → parse_port (some port) ≡ some number
    → is_valid_password (some password) ≡ true
    → is_calm_run polls (started number password fd) ≡ true
    → main_status all_signals
        (all_sockets fd)
        polls
        (some (some program ∷ some port ∷ some password ∷ []))
      ≡ 0
unfolding main_status serve
main_status-zero fd polls program port password number p w calm =
    let (t, e, i, o) =
      run-GoesOn polls (started number password fd) calm (started-Inv number password fd)
        (started-PollOk number password fd) in
    rw
      (
        read_server_arguments-accepted program port password number p w,
        start-all fd number password,
        e,
        main_status,
        serve,
      )
      refl
