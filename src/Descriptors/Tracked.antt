-- ===== src/Descriptors/Tracked.antt =====
-- While the server runs, the open sockets are the listening socket's and the clients', and none is
-- closed twice.
use irc.Base.{
  ℕ, ◌≡◌, ◌∙◌, Bool, true, false, not, ◌&&◌, ◌||◌, Option, none, some, arith, length, contains, leb,
  Distinct, contains-erase_first, erase_first-Distinct, ◌==◌, if◌then◌else◌, Option-cases,
  Bool-cases, inl, inr,
}
use irc.Text.{Text, int_key, text_key}
use irc.Map.{lookup}
use irc.Map.Laws.{has, has-lookup, lookup-insert, lookup-Entries}
use irc.Client.{Client, new_client}
use irc.Server.{Server, count_clients_from_ip}
use irc.Policy.Invariant.Clients.{ClientOk}
use irc.Policy.Invariant.All.{Inv}
use irc.Loop.{
  connection, max_total_clients, max_clients_per_ip, register_client, remove_client, announce_quit,
}
use irc.Loop.Invariant.Leave.{has-erase}
use irc.Loop.Poll.Rounds.{known_apart}
use irc.Loop.Steady.{Steady, Steady-has}
use irc.Loop.Steady.Steps.{announce_quit-Steady}
use irc.Descriptors.{
  Sockets, delete_client, open_socket, close_socket, Traced, closed, traced_register, traced_admit,
  traced_connection, traced_accept, traced_disconnect,
}

-- The descriptors that are open are those in the predicate, and no closed one was closed again.
pub record Holds (held : ℕ → Bool) (k : Sockets) : Type 0 where
  pub faultless : k.bad_close ≡ false
  pub distinct : Distinct k.open_fds
  pub held_lem : (x : ℕ) → contains x k.open_fds ≡ held x

abbrev pub of_server : Server → ℕ → Bool
of_server s x = x == s.listen_fd || has x s.clients

pub record Balanced (d : Traced) : Type 0 where
  pub apart : has d.server.listen_fd d.server.clients ≡ false
  pub held : Holds (of_server (d.server)) (d.sockets)

pub Holds-same : (p q : ℕ → Bool) (k : Sockets) → Holds p k → ((x : ℕ) → q x ≡ p x) → Holds q k
Holds-same p q k h e = record {
  faultless = h.faultless;
  distinct = h.distinct;
  held_lem = λ x. ground (arith, e x, h.held_lem x);
}

-- A descriptor that was not open is opened.
pub open_socket-Holds :
    (fd : ℕ) (p : ℕ → Bool) (k : Sockets)
    → p fd ≡ false
    → Holds p k
    → Holds (λ x. x == fd || p x) (open_socket fd k)
open_socket-Holds fd p k new h = record {
  faultless = h.faultless;
  distinct = (h.held_lem fd ∙ new, h.distinct);
  held_lem = λ x. ground (arith, h.held_lem x);
}

-- One that is open is closed.
pub close_socket-Holds :
    (fd : ℕ) (p : ℕ → Bool) (k : Sockets)
    → p fd ≡ true
    → Holds p k
    → Holds (λ x. not (x == fd) && p x) (close_socket fd k)
unfolding close_socket
close_socket-Holds fd p k there h =
    rw (h.held_lem fd ∙ there, close_socket)
      (record {
        faultless = h.faultless;
        distinct = erase_first-Distinct fd k.open_fds h.distinct;
        held_lem =
            λ x. ground (arith, contains-erase_first x fd k.open_fds h.distinct, h.held_lem x);
      })

-- The rejection of a connection.
reject-Holds :
    (fd : ℕ) (p : ℕ → Bool) (k : Sockets)
    → p fd ≡ false
    → Holds (λ x. x == fd || p x) k
    → Holds p (close_socket fd k)
reject-Holds fd p k new h =
    Holds-same _ p (close_socket fd k)
      (close_socket-Holds fd (λ x. x == fd || p x) k (ground arith) h)
      (λ x. elim (Bool-cases (x == fd)) [
        | inl own ↦ let e : x ≡ fd = ground arith in rw e (ground (arith, new))
        | inr other ↦ ground arith
      ])

if-Balanced : {d b : Traced} (t : Bool) → Balanced d → Balanced b → Balanced (if t then d else b)
if-Balanced true p q = p
if-Balanced false p q = q

-- The socket of a new connection, whose descriptor is in no other use, is either closed or a client's.
module _ (fd : ℕ) (d : Traced) (apart : has d.server.listen_fd d.server.clients ≡ false)
    (new : of_server (d.server) fd ≡ false)
    (opened : Holds (λ x. x == fd || of_server (d.server) x) (d.sockets)) where
  closed-Balanced : Balanced (closed fd d)
  closed-Balanced = record {
    apart = apart;
    held = reject-Holds fd (of_server (d.server)) (d.sockets) new opened;
  }

  register-Balanced : (c : Option Client) → Balanced (traced_register fd c d)
  unfolding traced_register register_client has
  register-Balanced none = closed-Balanced
  register-Balanced (some c) = record {
    apart = ground (arith, lookup-insert d.server.listen_fd fd c d.server.clients, apart, new);
    held =
        Holds-same _ _ (d.sockets) opened
          (λ x. ground (arith, lookup-insert x fd c d.server.clients));
  }

  connection-Balanced : (ok : Bool) (ip : Option Text) → Balanced (traced_connection fd ok ip d)
  unfolding traced_connection traced_admit
  connection-Balanced ok none =
      if-Balanced (leb max_total_clients (length d.server.clients)) closed-Balanced
        (if-Balanced (not ok) closed-Balanced closed-Balanced)
  connection-Balanced ok (some ip) =
      if-Balanced (leb max_total_clients (length d.server.clients)) closed-Balanced (
        if-Balanced (not ok) closed-Balanced (
          if-Balanced (leb max_clients_per_ip (count_clients_from_ip ip d.server)) closed-Balanced
            (register-Balanced (new_client fd ip))))

pub accept-Balanced :
    (fd : ℕ) (ok : Bool) (ip : Option Text) (d : Traced)
    → contains fd d.sockets.open_fds ≡ false
    → Balanced d
    → Balanced (traced_accept (connection fd ok ip) d)
unfolding traced_accept
accept-Balanced fd ok ip d fresh b =
    let new : of_server (d.server) fd ≡ false = ground (arith, b.held.held_lem fd, fresh) in
    connection-Balanced fd (record d { sockets = open_socket fd (d.sockets) }) b.apart new
      (open_socket-Holds fd (of_server (d.server)) (d.sockets) new b.held) ok ip

pub Steady-Balanced :
    (d : Traced) (t : Server)
    → Steady (d.server) t
    → Balanced d
    → Balanced (record d { server = t })
Steady-Balanced d t p b = record {
  apart = rw (p.listen_same) (Steady-has d.server.listen_fd (d.server) t p ∙ b.apart);
  held =
      Holds-same _ _ (d.sockets) b.held
        (λ x. ground (arith, p.listen_same, Steady-has x (d.server) t p));
}

pub disconnect-Balanced :
    (fd : ℕ) (d : Traced) → Inv (d.server) → Balanced d → Balanced (traced_disconnect fd d)
unfolding traced_disconnect remove_client delete_client
disconnect-Balanced fd d i b = elim (Option-cases (lookup fd d.server.clients)) [
  | inl gone ↦ rw (gone, traced_disconnect) b
  | inr (c, there) ↦
      let told : Server = announce_quit fd c (d.server) in
      let steady = announce_quit-Steady fd c (d.server) in
      let own : c.fd ≡ fd =
        (lookup-Entries ClientOk fd d.server.clients i.clients_ok there).own_fd in
      let known = has-lookup fd d.server.clients there in
      let apart = known_apart d.server.listen_fd fd d.server.clients b.apart known in
      rw (there, traced_disconnect)
        (record {
          apart = ground (
            arith,
            has-erase d.server.listen_fd fd told.clients,
            b.apart,
            Steady-has d.server.listen_fd (d.server) told steady,
            steady.listen_same,
          );
          held =
              Holds-same _ (of_server (remove_client fd told)) _
                (close_socket-Holds c.fd (of_server (d.server)) (d.sockets)
                  (ground (arith, own, known)) b.held)
                (λ x. ground (
                  arith,
                  own,
                  has-erase x fd told.clients,
                  Steady-has x (d.server) told steady,
                  steady.listen_same,
                  apart,
                ));
        })
]
