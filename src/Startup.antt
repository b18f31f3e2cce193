-- ===== src/Startup.antt =====
-- src/main.cpp and src/server/Server.cpp: from the arguments of the program to the loop and its end.
pub mod Service
use irc.Base.{
  ℕ, ◌≡◌, ◌≤◌, refl, Bool, true, false, not, ◌&&◌, ◌||◌, List, [], ◌∷◌, ◌++◌, Option, none, some,
  arith, ltb, is_empty, if◌then◌else◌, Option-cases, Bool-cases, inl, inr,
}
use irc.Text.{Text, int_key, text_key}
use irc.Map.{lookup}
use irc.Server.{Server, PollFd}
use irc.Arguments.{parse_port, is_valid_password}
use irc.Loop.Events.{Poll, run}

-- A server as its constructor leaves it: it has no listening socket (-1), and nothing else.
pub record Unstarted : Type 0 where
  pub port : ℕ
  pub password : Text

-- `none` is an exception, here and below.
unfoldable pub new_server : ℕ → Text → Option Unstarted
new_server port password =
    if ltb port 1 || ltb 65535 port
    then none
    else if is_empty password
    then none
    else some (record { port = port; password = password })

-- Which of the calls that set up the signals succeed.
pub record SignalCalls : Type 0 where
  pub sigemptyset_ignored : Bool
  pub sigaction_sigpipe : Bool
  pub sigemptyset_shutdown : Bool
  pub sigaction_sigint : Bool
  pub sigaction_sigterm : Bool
  pub sigaction_sigquit : Bool

unfoldable pub setup_signals : SignalCalls → Option (Unit {0})
setup_signals calls =
    if not calls.sigemptyset_ignored
    then none
    else if not calls.sigaction_sigpipe
    then none
    else if not calls.sigemptyset_shutdown
    then none
    else if not calls.sigaction_sigint
    then none
    else if not calls.sigaction_sigterm
    then none
    else if not calls.sigaction_sigquit
    then none
    else some tt

-- What `socket` returns, and which of the calls on it succeed; `bind` is told the port.
pub record SocketCalls : Type 0 where
  pub socket : Option ℕ
  pub setsockopt : Bool
  pub fcntl : Bool
  pub bind : ℕ → Bool
  pub listen : Bool

unfoldable pub setup_socket : SocketCalls → Unstarted → Option Server
setup_socket calls s = elim calls.socket [
  | none ↦ none
  | some fd ↦
      if not calls.setsockopt
      then none
      else if not calls.fcntl
      then none
      else if not (calls.bind s.port)
      then none
      else if not calls.listen
      then none
      else some (record {
        port = s.port;
        password = s.password;
        listen_fd = fd;
        poll_fds = record { fd = fd; poll_in = true; poll_out = false } ∷ [];
        clients = [];
        channels = [];
      })
]

-- The head of `Server::run`.
unfoldable pub start : SignalCalls → SocketCalls → Unstarted → Option Server
start signals sockets s = elim (setup_signals signals) [
  | none ↦ none
  | some done ↦ setup_socket sockets s
]

-- The arguments of the program, `none` for a null pointer, here of `argv` itself or of one string.
unfoldable pub read_server_arguments : Option (List (Option Text)) → Option Unstarted
read_server_arguments (some (some program ∷ some port ∷ some password ∷ [])) =
    elim (parse_port (some port)) [
      | none ↦ none
      | some number ↦
          if not (is_valid_password (some password)) then none else new_server number password
    ]
read_server_arguments _ = none

-- The server at the end of `main`'s `try` block.
unfoldable pub serve :
    SignalCalls → SocketCalls → List Poll → Option (List (Option Text)) → Option Server
serve signals sockets polls argv = elim (read_server_arguments argv) [
  | none ↦ none
  | some s ↦ elim (start signals sockets s) [ none ↦ none | some t ↦ run polls t ]
]

unfoldable pub main_status : SignalCalls → SocketCalls → List Poll → Option (List (Option Text)) → ℕ
main_status signals sockets polls argv = elim (serve signals sockets polls argv) [
  | none ↦ 1
  | some ended ↦ 0
]
