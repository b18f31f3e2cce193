-- ===== src/Loop/Quota.antt =====
-- The limits on connections.
pub mod Steps
pub mod Rounds
use irc.Base.{
  ℕ, suc, ◌≤◌, ◌<◌, ◌≡◌, refl, sym, ◌∙◌, Bool, true, false, not, [], ◌∷◌, none, some, arith, length,
  is_empty, leb, if◌then◌else◌, Bool-cases, inl, inr, Option-cases,
}
use irc.Text.{Text, int_key, text_eq, text_eq_iff}
use irc.Map.{Map, insert}
use irc.Client.{Client, new_client}
use irc.Server.{Server, count_from_ip, count_clients_from_ip}
use irc.Loop.{
  Accepted, no_connection, connection, max_total_clients, max_clients_per_ip, register_client,
  admit_client, accept_new_client,
}

-- At most `max_total_clients`, and at most `max_clients_per_ip` alive from each address.
pub record WithinQuota (s : Server) : Type 0 where
  pub total : length s.clients ≤ max_total_clients
  pub per_ip : (ip : Text) → count_clients_from_ip ip s ≤ max_clients_per_ip

length-insert : (fd : ℕ) (c : Client) (m : Map ℕ Client) → length (insert fd c m) ≤ suc (length m)
unfolding insert
length-insert fd c [] = ground arith
length-insert fd c ((k, d) ∷ m) = ground (arith, length-insert fd c m)

count-insert :
    (ip : Text) (fd : ℕ) (c : Client) (m : Map ℕ Client)
    → count_from_ip ip (insert fd c m) ≤ suc (count_from_ip ip m)
unfolding insert count_from_ip
count-insert ip fd c [] = ground arith
count-insert ip fd c ((k, d) ∷ m) = ground (arith, count-insert ip fd c m)

count-insert_other :
    (ip : Text) (fd : ℕ) (c : Client) (m : Map ℕ Client)
    → text_eq c.ip ip ≡ false
    → count_from_ip ip (insert fd c m) ≤ count_from_ip ip m
unfolding insert count_from_ip
count-insert_other ip fd c [] h = ground arith
count-insert_other ip fd c ((k, d) ∷ m) h = ground (arith, count-insert_other ip fd c m h)

new_client_ip : (fd : ℕ) (ip : Text) {c : Client} → new_client fd ip ≡ some c → c.ip ≡ ip
unfolding new_client
new_client_ip fd ip {c} e = ground arith

one_more :
    (other ip : Text) (fd : ℕ) (c : Client) (s : Server)
    → c.ip ≡ ip
    → count_clients_from_ip ip s < max_clients_per_ip
    → count_clients_from_ip other s ≤ max_clients_per_ip
    → (if is_empty other then 0 else count_from_ip other (insert fd c s.clients))
      ≤ max_clients_per_ip
one_more other ip fd c s e few q = elim (Bool-cases (text_eq c.ip other)) [
  | inl same ↦
      let there : ip ≡ other = sym e ∙ (text_eq_iff c.ip other).0 same in
      ground (arith, (rw there at few), count-insert other fd c s.clients)
  | inr different ↦ ground (arith, count-insert_other other fd c s.clients different)
]

register_client-WithinQuota :
    (fd : ℕ) (ip : Text) (s : Server)
    → length s.clients < max_total_clients
    → count_clients_from_ip ip s < max_clients_per_ip
    → WithinQuota s
    → WithinQuota (register_client fd (new_client fd ip) s)
unfolding register_client
register_client-WithinQuota fd ip s room few q = elim (Option-cases (new_client fd ip)) [
  | inl refused ↦ rw (refused, register_client) q
  | inr (c, made) ↦
      rw (made, register_client)
        (record {
          total = ground (arith, length-insert fd c s.clients);
          per_ip = λ other.
              one_more other ip fd c s (new_client_ip fd ip {c = c} made) few (q.per_ip other);
        })
]

if-WithinQuota :
    {s t : Server} (b : Bool)
    → (b ≡ true → WithinQuota s)
    → (b ≡ false → WithinQuota t)
    → WithinQuota (if b then s else t)
if-WithinQuota true p q = p refl
if-WithinQuota false p q = q refl

-- Whatever `accept` and the calls behind it answer, a server within its limits (512 clients, and
-- 128 alive from each address) stays within them.
pub accept_new_client-WithinQuota :
    (a : Accepted) (s : Server) → WithinQuota s → WithinQuota (accept_new_client a s)
unfolding accept_new_client admit_client
accept_new_client-WithinQuota no_connection s q = q
accept_new_client-WithinQuota (connection fd ok none) s q =
    if-WithinQuota (leb max_total_clients (length s.clients)) (λ _. q)
      (λ _. if-WithinQuota (not ok) (λ _. q) (λ _. q))
accept_new_client-WithinQuota (connection fd ok (some ip)) s q =
    if-WithinQuota (leb max_total_clients (length s.clients)) (λ _. q)
      (λ room.
        if-WithinQuota (not ok) (λ _. q)
          (λ _.
            if-WithinQuota (leb max_clients_per_ip (count_clients_from_ip ip s)) (λ _. q)
              (λ few. register_client-WithinQuota fd ip s (ground arith) (ground arith) q)))
