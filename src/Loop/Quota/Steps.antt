-- ===== src/Loop/Quota/Steps.antt =====
-- Reads, writes and removals add no clients.
use irc.Base.{ℕ, ◌≤◌, List, [], ◌∷◌, arith, length, Option-cases, inl, inr}
use irc.Text.{Text, int_key, text_key}
use irc.Map.{Map, lookup, erase}
use irc.Client.{Client}
use irc.Server.{Server, count_from_ip}
use irc.Loop.{remove_client, announce_quit, disconnect_client, disconnect_all, reap_dead_clients}
use irc.Loop.Steady.{Steady, Paired-length, Paired-count}
use irc.Loop.Steady.Steps.{announce_quit-Steady, finish_all-Steady}
use irc.Loop.Quota.{WithinQuota}

-- The server `t` has no more clients than `s`, in all and alive from each address.
pub record Fewer (s t : Server) : Type 0 where
  pub fewer : length t.clients ≤ length s.clients
  pub fewer_alive : (ip : Text) → count_from_ip ip t.clients ≤ count_from_ip ip s.clients

Fewer-refl : (s : Server) → Fewer s s
Fewer-refl s = record { fewer = ground arith; fewer_alive = λ ip. ground arith }

Fewer-trans : (r s t : Server) → Fewer r s → Fewer s t → Fewer r t
Fewer-trans r s t p q = record {
  fewer = ground (arith, p.fewer, q.fewer);
  fewer_alive = λ ip. ground (arith, p.fewer_alive ip, q.fewer_alive ip);
}

pub Steady-Fewer : (s t : Server) → Steady s t → Fewer s t
Steady-Fewer s t h = record {
  fewer = ground (arith, Paired-length h.clients_stay);
  fewer_alive = λ ip. Paired-count ip h.clients_stay;
}

length-erase : (fd : ℕ) (m : Map ℕ Client) → length (erase fd m) ≤ length m
unfolding erase
length-erase fd [] = ground arith
length-erase fd ((k, c) ∷ m) = ground (arith, length-erase fd m)

count-erase :
    (ip : Text) (fd : ℕ) (m : Map ℕ Client) → count_from_ip ip (erase fd m) ≤ count_from_ip ip m
unfolding erase count_from_ip
count-erase ip fd [] = ground arith
count-erase ip fd ((k, c) ∷ m) = ground (arith, count-erase ip fd m)

disconnect_client-Fewer : (fd : ℕ) (s : Server) → Fewer s (disconnect_client fd s)
unfolding disconnect_client remove_client
disconnect_client-Fewer fd s = elim (Option-cases (lookup fd s.clients)) [
  | inl gone ↦ rw (gone, disconnect_client) (Fewer-refl s)
  | inr (c, there) ↦
      let told : Server = announce_quit fd c s in
      rw (there, disconnect_client)
        (Fewer-trans s told _ (Steady-Fewer s told (announce_quit-Steady fd c s)) (record {
          fewer = length-erase fd told.clients;
          fewer_alive = λ ip. count-erase ip fd told.clients;
        }))
]

disconnect_all-Fewer : (fds : List ℕ) (s : Server) → Fewer s (disconnect_all fds s)
unfolding disconnect_all
disconnect_all-Fewer [] s = Fewer-refl s
disconnect_all-Fewer (fd ∷ fds) s =
    Fewer-trans s (disconnect_client fd s) _ (disconnect_client-Fewer fd s)
      (disconnect_all-Fewer fds (disconnect_client fd s))

pub reap_dead_clients-Fewer : (s : Server) → Fewer s (reap_dead_clients s)
unfolding reap_dead_clients
reap_dead_clients-Fewer s =
    Fewer-trans s _ _ (Steady-Fewer s _ (finish_all-Steady s)) (disconnect_all-Fewer _ _)

pub Fewer-WithinQuota : (s t : Server) → Fewer s t → WithinQuota s → WithinQuota t
Fewer-WithinQuota s t f q = record {
  total = ground (arith, q.total, f.fewer);
  per_ip = λ ip. ground (arith, q.per_ip ip, f.fewer_alive ip);
}
