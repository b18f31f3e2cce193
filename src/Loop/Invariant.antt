-- ===== src/Loop/Invariant.antt =====
-- The invariant through the event loop: connections, reads, writes and the removal of clients.
pub mod Leave
pub mod Round
use mathlib.Core.Option
use irc.Base.{
  ℕ, zero, suc, ◌+◌, ◌≤◌, ◌<◌, ◌≡◌, ◌≢◌, refl, sym, ap, ◌∙◌, ◌⊎◌, Bool, true, false, not, ◌&&◌,
  List, [], ◌∷◌, none, some, arith, length, is_empty, ◌==◌, Option-cases, inl, inr, if◌then◌else◌,
  Bool-cases, leb, ◌||◌,
}
use irc.Text.{Text, int_key, text_key}
use irc.Text.Casemap.{lower_of_nil, lower_nil, to_irc_lower_case}
use irc.Map.{Map, lookup, insert, erase}
use irc.Map.Laws.{
  Entries, has, insert-Entries, erase-Entries, map-Entries, lookup-insert, lookup-erase,
}
use irc.Client.{
  Client, extract_line, new_client, mark_dead, mark_closing, append_to_recv_buffer, is_registered,
}
use irc.Channel.{Channel, is_member, is_invited, remove_member, remove_invited}
use irc.Channel.Invariant.{
  WellFormed, is_member-remove_member, is_invited-remove_invited, remove_member-WellFormed,
  remove_invited-WellFormed,
}
use irc.Server.{Server, update_client, count_clients_from_ip}
use irc.Server.Find.{Above, Sorted}
use irc.Command.Dispatch.{process_line}
use irc.Policy.Names.{Named}
use irc.Policy.Invariant.Channels.{ChannelOk, ChannelsOk}
use irc.Policy.Invariant.Clients.{ClientOk, ClientsOk}
use irc.Policy.Invariant.Nicks.{NicksOk, NicksUnique}
use irc.Policy.Invariant.All.{Inv, process_line-Inv}
use irc.Loop.Kept.{
  KeptBounded, KeptBounded-ClientOk, update_client-Inv, mark_dead_kept, mark_closing_kept,
  finish_closing_kept, append_kept, extract_line_kept, after_send_kept,
}
use irc.Loop.{
  Accepted, no_connection, connection, Received, end_of_stream, no_data, recv_error, bytes, Sent,
  read_lines, is_stopped, receive, receive_bytes, handle_client_read, handle_client_write,
  max_total_clients, max_clients_per_ip, register_client, admit_client, accept_new_client,
  after_send,
}

-- A client that has just connected.
new_client_fields :
    (fd : ℕ) (ip : Text) {c : Client}
    → new_client fd ip ≡ some c
    → ClientOk fd c × (c.nickname ≡ [])
unfolding new_client
new_client_fields fd ip {c} e = (
  record {
    own_fd = ground arith;
    send_bounded = ground arith;
    recv_bounded = ground arith;
    nick_valid = λ h. ground arith;
    nick_unset = λ h. ground arith;
    user_valid = λ h. ground arith;
  },
  ground arith,
)

Above-insert :
    (b fd : ℕ) (c : Client) (m : Map ℕ Client) → b < fd → Above b m → Above b (insert fd c m)
unfolding insert
Above-insert b fd c [] h a = (h, tt)
Above-insert b fd c ((k, d) ∷ m) h a = ground (arith, Above-insert b fd c m h a.1)

Above-mono : (a b : ℕ) (m : Map ℕ Client) → a ≤ b → Above b m → Above a m
Above-mono a b [] h u = tt
Above-mono a b ((k, d) ∷ m) h u = (omega arith, Above-mono a b m h u.1)

Sorted-insert : (fd : ℕ) (c : Client) (m : Map ℕ Client) → Sorted m → Sorted (insert fd c m)
unfolding insert
Sorted-insert fd c [] s = (tt, tt)
Sorted-insert fd c ((k, d) ∷ m) s =
    ground (arith, Sorted-insert fd c m s.1, Above-insert k fd c m, Above-mono fd k m, s.0, s.1)

-- After an insertion a client is the new one, or was there before.
inserted :
    (fd x : ℕ) (new c : Client) (m : Map ℕ Client)
    → lookup x (insert fd new m) ≡ some c
    → ((x ≡ fd) × (c ≡ new)) ⊎ (lookup x m ≡ some c)
inserted fd x new c m e = ground (arith, lookup-insert x fd new m)

-- A client without a nickname does not clash with another.
insert-NicksUnique :
    (fd : ℕ) (new : Client) (m : Map ℕ Client)
    → new.nickname ≡ []
    → NicksUnique m
    → NicksUnique (insert fd new m)
insert-NicksUnique fd new m z u x y c d lx ly ax ay ne e = elim (inserted fd x new c m lx) [
  | inl (_, cn) ↦ absurd (ne (ap (λ (b : Client). b.nickname) cn ∙ z))
  | inr oldx ↦ elim (inserted fd y new d m ly) [
    | inl (_, dn) ↦ absurd (
        ne (
          lower_of_nil c.nickname
            (e ∙ ap to_irc_lower_case (ap (λ (b : Client). b.nickname) dn ∙ z) ∙ lower_nil)))
    | inr oldy ↦ u x y c d oldx oldy ax ay ne e
  ]
]

pub has-insert :
    (x fd : ℕ) (c : Client) (m : Map ℕ Client) → has x m ≡ true → has x (insert fd c m) ≡ true
unfolding has
has-insert x fd c m h = ground (arith, lookup-insert x fd c m)

register_client-Inv :
    (fd : ℕ) (ip : Text) (s : Server) → Inv s → Inv (register_client fd (new_client fd ip) s)
unfolding register_client
register_client-Inv fd ip s i = elim (Option-cases (new_client fd ip)) [
  | inl refused ↦ rw (refused, register_client) i
  | inr (c, made) ↦
      let (ok, unnamed) = new_client_fields fd ip {c = c} made in
      rw (made, register_client)
        (record {
          named = i.named;
          channels_ok =
              map-Entries (λ _ ch. ChannelOk s.clients ch)
                (λ _ ch. ChannelOk (insert fd c s.clients) ch) s.channels
                (λ _ ch o. record {
                  well_formed = o.well_formed;
                  members_known = λ x e. has-insert x fd c s.clients (o.members_known x e);
                  invited_known = λ x e. has-insert x fd c s.clients (o.invited_known x e);
                })
                i.channels_ok;
          clients_ok = insert-Entries ClientOk fd c s.clients ok i.clients_ok;
          nicks_ok = record {
            sorted = Sorted-insert fd c s.clients i.nicks_ok.sorted;
            unique = insert-NicksUnique fd c s.clients unnamed i.nicks_ok.unique;
          };
        })
]

if-Inv : {s t : Server} (b : Bool) → Inv s → Inv t → Inv (if b then s else t)
if-Inv true i j = i
if-Inv false i j = j

-- Whatever `accept` and the calls behind it answer, the invariant is kept.
pub accept_new_client-Inv : (a : Accepted) (s : Server) → Inv s → Inv (accept_new_client a s)
unfolding accept_new_client admit_client
accept_new_client-Inv no_connection s i = i
accept_new_client-Inv (connection fd ok none) s i =
    if-Inv (leb max_total_clients (length s.clients)) i (if-Inv (not ok) i i)
accept_new_client-Inv (connection fd ok (some ip)) s i =
    if-Inv (leb max_total_clients (length s.clients)) i (
      if-Inv (not ok) i (
        if-Inv (leb max_clients_per_ip (count_clients_from_ip ip s)) i
          (register_client-Inv fd ip s i)))

pub read_lines-Inv : (fuel fd : ℕ) (s : Server) → Inv s → Inv (read_lines fuel fd s)
unfolding read_lines
read_lines-Inv zero fd s i = i
read_lines-Inv (suc fuel) fd s i = elim (Option-cases (lookup fd s.clients)) [
  | inl gone ↦ rw (gone, read_lines) i
  | inr (c, there) ↦
      let left : Server = update_client fd (λ b. (extract_line b).1) s in
      let kept = update_client-Inv fd (λ b. (extract_line b).1) s extract_line_kept i in
      elim (Option-cases (extract_line c).0) [
        | inl idle ↦ rw (there, idle, read_lines) kept
        | inr (message, found) ↦
            let processed = process_line-Inv fd message left kept in
            rw (there, found, read_lines)
              (if-Inv (is_stopped fd (process_line fd message left)) processed
                (read_lines-Inv fuel fd (process_line fd message left) processed))
      ]
]

receive-Inv : (fd : ℕ) (r : Received) (c : Client) (s : Server) → Inv s → Inv (receive fd r c s)
unfolding receive receive_bytes
receive-Inv fd end_of_stream c s i = update_client-Inv fd _ s (mark_closing_kept _) i
receive-Inv fd no_data c s i = i
receive-Inv fd (recv_error why) c s i = update_client-Inv fd _ s (mark_dead_kept _) i
receive-Inv fd (bytes chunk) c s i =
    let stored =
      update_client-Inv fd (λ b. (append_to_recv_buffer (some chunk) (length chunk) b).1) s
        (append_kept chunk (length chunk)) i in
    if-Inv (append_to_recv_buffer (some chunk) (length chunk) c).0 (read_lines-Inv _ fd _ stored)
      (update_client-Inv fd _ _ (mark_dead_kept _) stored)

-- Whatever `recv` answers, handling it and all the lines that it completes keeps the invariant.
pub handle_client_read-Inv :
    (fd : ℕ) (r : Received) (s : Server) → Inv s → Inv (handle_client_read fd r s)
unfolding handle_client_read
handle_client_read-Inv fd r s i = elim (Option-cases (lookup fd s.clients)) [
  | inl gone ↦ rw (gone, handle_client_read) i
  | inr (c, there) ↦
      rw (there, handle_client_read) (if-Inv (c.dead || c.closing) i (receive-Inv fd r c s i))
]

pub handle_client_write-Inv :
    (fd : ℕ) (w : Sent) (s : Server) → Inv s → Inv (handle_client_write fd w s)
unfolding handle_client_write
handle_client_write-Inv fd w s i = elim (Option-cases (lookup fd s.clients)) [
  | inl gone ↦ rw (gone, handle_client_write) i
  | inr (c, there) ↦
      rw (there, handle_client_write)
        (if-Inv c.dead i (
          if-Inv (is_empty c.send_buffer) i
            (update_client-Inv fd (after_send w) s (after_send_kept w) i)))
]
