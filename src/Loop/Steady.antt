-- ===== src/Loop/Steady.antt =====
-- Steps after which the server has the same connections: each client stands under its descriptor, for
-- the same address, none has come back to life, and the poll entries are the same.
pub mod Steps
use irc.Base.{
  ℕ, suc, ap, ◌≤◌, ◌≡◌, refl, sym, ◌∙◌, Bool, true, false, List, [], ◌∷◌, Option, none, some, arith,
  length, if◌then◌else◌, Option-cases, Bool-cases, ◌==◌, inl, inr,
}
use irc.Text.{Text, int_key, text_key}
use irc.Map.{Map, lookup, modify}
use irc.Map.Laws.{has}
use irc.Client.{
  Client, set_pass_ok, extract_line, append_to_recv_buffer, mark_dead, mark_closing,
  consume_send_buffer, send_message, record_failed_pass_attempt,
}
use irc.Client.Evolves.{send_message-Told, mark_closing-Told}
use irc.Server.{
  Server, count_from_ip, find_channel, create_channel, update_client, update_channel,
  remove_channel, tell, broadcast, is_sender,
}
use irc.Command.Nick.{set_nick}
use irc.Command.User.{set_user}
use irc.Command.Dispatch.{process_line}
use irc.Policy
use irc.Policy.Names.{Named}
use irc.Policy.Refine.Dispatch.{process_line-Acts}
use irc.Policy.Invariant.Channels.{clients-create_channel}

-- The client is the same connection, and does not come back to life.
pub record Stays (c d : Client) : Type 0 where
  pub fd_same : d.fd ≡ c.fd
  pub ip_same : d.ip ≡ c.ip
  pub stays_dead : c.dead ≡ true → d.dead ≡ true

-- The clients stand under the same descriptors, in the same order.
pub data Paired : Map ℕ Client → Map ℕ Client → Type 0 where
  none_left : Paired [] []
  pair :
      {k : ℕ} {c d : Client} {m n : Map ℕ Client}
      → Stays c d
      → Paired m n
      → Paired ((k, c) ∷ m) ((k, d) ∷ n)

pub record Steady (s t : Server) : Type 0 where
  pub entries_same : t.poll_fds ≡ s.poll_fds
  pub listen_same : t.listen_fd ≡ s.listen_fd
  pub clients_stay : Paired s.clients t.clients

Stays-refl : (c : Client) → Stays c c
Stays-refl c = record { fd_same = refl; ip_same = refl; stays_dead = λ h. h }

Paired-refl : (m : Map ℕ Client) → Paired m m
Paired-refl [] = none_left
Paired-refl ((k, c) ∷ m) = pair (Stays-refl c) (Paired-refl m)

Paired-trans : {l m n : Map ℕ Client} → Paired l m → Paired m n → Paired l n
Paired-trans none_left none_left = none_left
Paired-trans (pair h p) (pair g q) =
    pair
      (record {
        fd_same = g.fd_same ∙ h.fd_same;
        ip_same = g.ip_same ∙ h.ip_same;
        stays_dead = λ x. g.stays_dead (h.stays_dead x);
      })
      (Paired-trans p q)

pub Steady-refl : (s : Server) → Steady s s
Steady-refl s = record {
  entries_same = refl;
  listen_same = refl;
  clients_stay = Paired-refl s.clients;
}

pub Steady-trans : (r s t : Server) → Steady r s → Steady s t → Steady r t
Steady-trans r s t p q = record {
  entries_same = q.entries_same ∙ p.entries_same;
  listen_same = q.listen_same ∙ p.listen_same;
  clients_stay = Paired-trans p.clients_stay q.clients_stay;
}

modify-Paired :
    (fd : ℕ) (f : Client → Client) (m : Map ℕ Client)
    → ((c : Client) → Stays c (f c))
    → Paired m (modify fd f m)
unfolding modify
modify-Paired fd f [] keep = none_left
modify-Paired fd f ((k, c) ∷ m) keep = elim (Bool-cases (k == fd)) [
  | inl own ↦ rw own (pair (keep c) (Paired-refl m))
  | inr other ↦ rw other (pair (Stays-refl c) (modify-Paired fd f m keep))
]

pub update_client-Steady :
    (fd : ℕ) (f : Client → Client) (s : Server)
    → ((c : Client) → Stays c (f c))
    → Steady s (update_client fd f s)
unfolding update_client
update_client-Steady fd f s keep = record {
  entries_same = refl;
  listen_same = refl;
  clients_stay = modify-Paired fd f s.clients keep;
}

pub send_message-Stays : (m : Text) (c : Client) → Stays c (send_message m c)
send_message-Stays m c = ground (arith, send_message-Told m c)

pub mark_closing-Stays : (why : Text) (c : Client) → Stays c (mark_closing why c)
mark_closing-Stays why c = ground (arith, mark_closing-Told why c)

pub mark_dead-Stays : (why : Text) (c : Client) → Stays c (mark_dead why c)
unfolding mark_dead
mark_dead-Stays why c = ground arith

record_failed-Stays : (c : Client) → Stays c (record_failed_pass_attempt c)
unfolding record_failed_pass_attempt
record_failed-Stays c = ground arith

pub tell-Steady : (fd : ℕ) (m : Text) (s : Server) → Steady s (tell fd m s)
unfolding tell
tell-Steady fd m s = update_client-Steady fd (send_message m) s (send_message-Stays m)

pub broadcast-Steady :
    (xs : List ℕ) (m : Text) (sender : Option ℕ) (s : Server) → Steady s (broadcast xs m sender s)
unfolding broadcast
broadcast-Steady [] m sender s = Steady-refl s
broadcast-Steady (x ∷ xs) m sender s =
    Steady-trans s (if is_sender x sender then s else tell x m s) _ (first (is_sender x sender))
      (broadcast-Steady xs m sender _)
  where
    first : (b : Bool) → Steady s (if b then s else tell x m s)
    first true = Steady-refl s
    first false = tell-Steady x m s

-- A step that leaves clients and entries alone.
only_channels :
    (s t : Server)
    → t.clients ≡ s.clients
    → t.poll_fds ≡ s.poll_fds
    → t.listen_fd ≡ s.listen_fd
    → Steady s t
only_channels s t c e l = record {
  entries_same = e;
  listen_same = l;
  clients_stay = rw c (Paired-refl s.clients);
}

create_channel-Steady : (name : Text) (s : Server) → Steady s (create_channel name s)
unfolding create_channel
create_channel-Steady name s = elim (Option-cases (find_channel name s)) [
  | inl e ↦ rw (e, create_channel) (only_channels s _ refl refl refl)
  | inr (ch, e) ↦ rw (e, create_channel) (Steady-refl s)
]

module _ {fd : ℕ} {who : Client} {params : List Text} {start : Server} where
  Act-Steady : {s t : Server} → Policy.Act fd who params start s t → Steady s t
  unfolding update_channel remove_channel
  Act-Steady {s} (Policy.tells y m) = tell-Steady y m s
  Act-Steady {s} (Policy.authenticates p) = update_client-Steady fd _ s (λ c. ground arith)
  Act-Steady {s} Policy.fails_pass = update_client-Steady fd _ s record_failed-Stays
  Act-Steady {s} (Policy.closes reason) = update_client-Steady fd _ s (mark_closing-Stays reason)
  Act-Steady {s} (Policy.identifies u h a v) = update_client-Steady fd _ s (λ c. ground arith)
  Act-Steady {s} (Policy.renames u h a v f) = update_client-Steady fd _ s (λ c. ground arith)
  Act-Steady {s} (Policy.creates name r a v e) =
      Steady-trans s (create_channel name s) _ (create_channel-Steady name s)
        (only_channels (create_channel name s) _ refl refl refl)
  Act-Steady {s} (Policy.joins name ch r e m) = only_channels s _ refl refl refl
  Act-Steady {s} (Policy.leaves name r a) = only_channels s _ refl refl refl
  Act-Steady {s} (Policy.removes name ch r e z) = only_channels s _ refl refl refl
  Act-Steady {s} (Policy.kicks name ch target r a e op m) = only_channels s _ refl refl refl
  Act-Steady {s} (Policy.invites name ch target r a e m o i) = only_channels s _ refl refl refl
  Act-Steady {s} (Policy.retopics name topic ch r a e m op) = only_channels s _ refl refl refl
  Act-Steady {s} (Policy.sets name change r a op) = only_channels s _ refl refl refl
  Act-Steady {s} (Policy.promotes name ch target r a op e m) = only_channels s _ refl refl refl
  Act-Steady {s} (Policy.demotes name target r a op) = only_channels s _ refl refl refl

  Acts-Steady : {s t : Server} → Policy.Acts fd who params start s t → Steady s t
  Acts-Steady {s} Policy.done = Steady-refl s
  Acts-Steady (Policy.also p a) = Steady-trans _ _ _ (Acts-Steady p) (Act-Steady a)

pub process_line-Steady :
    (fd : ℕ) (raw_line : Text) (s : Server) → Named s → Steady s (process_line fd raw_line s)
process_line-Steady fd raw_line s n = elim (Option-cases (lookup fd s.clients)) [
  | inl gone ↦ unfold process_line in rw (gone, process_line) (Steady-refl s)
  | inr (who, there) ↦ Acts-Steady (process_line-Acts fd who raw_line s there n)
]

-- What pairs of clients have in common.
Paired-has : (x : ℕ) {m n : Map ℕ Client} → Paired m n → has x n ≡ has x m
unfolding has lookup
Paired-has x none_left = refl
Paired-has x (pair h p) = ground (arith, Paired-has x p)

pub Steady-has : (x : ℕ) (s t : Server) → Steady s t → has x t.clients ≡ has x s.clients
Steady-has x s t p = Paired-has x p.clients_stay

pub Paired-length : {m n : Map ℕ Client} → Paired m n → length n ≡ length m
Paired-length none_left = refl
Paired-length (pair h p) = ap suc (Paired-length p)

pub Paired-count :
    (ip : Text) {m n : Map ℕ Client} → Paired m n → count_from_ip ip n ≤ count_from_ip ip m
unfolding count_from_ip
Paired-count ip none_left = ground arith
Paired-count ip (pair h p) = ground (arith, Paired-count ip p, h.ip_same, h.stays_dead)
