-- ===== src/Loop/Invariant/Leave.antt =====
-- The invariant when clients leave.
use mathlib.Core.Option
use irc.Base.{
  ℕ, ◌≡◌, refl, ◌∙◌, true, false, not, ◌&&◌, List, [], ◌∷◌, some, arith, ◌==◌, Option-cases, inl,
  inr, Bool-cases,
}
use irc.Text.{Text, int_key, text_key}
use irc.Map.{Map, lookup, erase}
use irc.Map.Laws.{Entries, has, erase-Entries, map-Entries, lookup-erase}
use irc.Client.{Client, is_registered}
use irc.Channel.{Channel, is_member, is_invited, remove_member, remove_invited}
use irc.Channel.Invariant.{
  is_member-remove_member, is_invited-remove_invited, remove_member-WellFormed,
  remove_invited-WellFormed,
}
use irc.Server.{Server}
use irc.Server.Find.{Above, Sorted}
use irc.Policy.Invariant.Channels.{ChannelOk}
use irc.Policy.Invariant.Clients.{ClientOk}
use irc.Policy.Invariant.All.{Inv}
use irc.Loop.Kept.{KeptBounded-ClientOk, finish_closing_kept, broadcast-Inv}
use irc.Loop.{
  finish_closing, finish_all, forget_client, remove_client, announce_quit, disconnect_client,
  disconnect_all, reap_dead_clients,
}

pub has-erase : (x fd : ℕ) (m : Map ℕ Client) → has x (erase fd m) ≡ (not (x == fd) && has x m)
unfolding has
has-erase x fd m = ground (arith, lookup-erase x fd m)

forget_one-ChannelOk :
    (fd : ℕ) (m : Map ℕ Client) (ch : Channel)
    → ChannelOk m ch
    → ChannelOk (erase fd m) (remove_invited fd (remove_member fd ch))
forget_one-ChannelOk fd m ch o =
    let left = remove_member-WellFormed fd ch o.well_formed in
    record {
      well_formed = remove_invited-WellFormed fd (remove_member fd ch) left;
      members_known = λ x e. ground (
        arith,
        has-erase x fd m,
        o.members_known x,
        is_member-remove_member x fd ch o.well_formed,
        (let p : is_member x (remove_member fd ch) ≡ true = unfold remove_invited in ground arith in
            p),
      );
      invited_known = λ x e. ground (
        arith,
        has-erase x fd m,
        o.invited_known x,
        is_invited-remove_invited x fd (remove_member fd ch) left,
        (let p : is_invited x (remove_member fd ch) ≡ is_invited x ch =
              unfold remove_member in ground arith in
            p),
      );
    }

forget_client-ChannelsOk :
    (fd : ℕ) (m : Map ℕ Client) (chs : Map Text Channel)
    → Entries (λ _ ch. ChannelOk m ch) chs
    → Entries (λ _ ch. ChannelOk (erase fd m) ch) (forget_client fd chs)
unfolding forget_client
forget_client-ChannelsOk fd m [] h = tt
forget_client-ChannelsOk fd m ((name, ch) ∷ rest) h =
    (forget_one-ChannelOk fd m ch h.0, forget_client-ChannelsOk fd m rest h.1)

forget_client-Named :
    (fd : ℕ) (chs : Map Text Channel)
    → Entries (λ (name : Text) (ch : Channel). ch.name ≡ name) chs
    → Entries (λ (name : Text) (ch : Channel). ch.name ≡ name) (forget_client fd chs)
unfolding forget_client remove_invited remove_member
forget_client-Named fd [] h = tt
forget_client-Named fd ((name, ch) ∷ rest) h =
    (ground (arith, h.0), forget_client-Named fd rest h.1)

Above-erase : (b fd : ℕ) (m : Map ℕ Client) → Above b m → Above b (erase fd m)
unfolding erase
Above-erase b fd [] a = tt
Above-erase b fd ((k, c) ∷ m) a = ground (arith, Above-erase b fd m a.1)

Sorted-erase : (fd : ℕ) (m : Map ℕ Client) → Sorted m → Sorted (erase fd m)
unfolding erase
Sorted-erase fd [] s = tt
Sorted-erase fd ((k, c) ∷ m) s = ground (arith, Sorted-erase fd m s.1, Above-erase k fd m s.0)

kept_lookup :
    (fd x : ℕ) (m : Map ℕ Client) (c : Client)
    → lookup x (erase fd m) ≡ some c
    → lookup x m ≡ some c
kept_lookup fd x m c e = ground (arith, lookup-erase x fd m)

remove_client-Inv : (fd : ℕ) (s : Server) → Inv s → Inv (remove_client fd s)
unfolding remove_client
remove_client-Inv fd s i =
    let m = s.clients in
    record {
      named = forget_client-Named fd s.channels i.named;
      channels_ok = forget_client-ChannelsOk fd m s.channels i.channels_ok;
      clients_ok = erase-Entries ClientOk fd m i.clients_ok;
      nicks_ok = record {
        sorted = Sorted-erase fd m i.nicks_ok.sorted;
        unique = λ x y c d lx ly.
            i.nicks_ok.unique x y c d (kept_lookup fd x m c lx) (kept_lookup fd y m d ly);
      };
    }

pub announce_quit-Inv : (fd : ℕ) (c : Client) (s : Server) → Inv s → Inv (announce_quit fd c s)
unfolding announce_quit
announce_quit-Inv fd c s i = elim (Bool-cases (is_registered c)) [
  | inl known ↦ rw known (broadcast-Inv _ _ _ s i)
  | inr unknown ↦ rw unknown i
]

-- A client leaves the server with all its memberships, operator rights and invitations.
pub disconnect_client-Inv : (fd : ℕ) (s : Server) → Inv s → Inv (disconnect_client fd s)
unfolding disconnect_client
disconnect_client-Inv fd s i = elim (Option-cases (lookup fd s.clients)) [
  | inl gone ↦ rw (gone, disconnect_client) i
  | inr (c, there) ↦
      rw (there, disconnect_client) (remove_client-Inv fd _ (announce_quit-Inv fd c s i))
]

disconnect_all-Inv : (fds : List ℕ) (s : Server) → Inv s → Inv (disconnect_all fds s)
unfolding disconnect_all
disconnect_all-Inv [] s i = i
disconnect_all-Inv (fd ∷ fds) s i =
    disconnect_all-Inv fds (disconnect_client fd s) (disconnect_client-Inv fd s i)

pub lookup-finish_all :
    (x : ℕ) (m : Map ℕ Client) → lookup x (finish_all m) ≡ Option.map finish_closing (lookup x m)
unfolding lookup finish_all
lookup-finish_all x [] = refl
lookup-finish_all x ((fd, c) ∷ m) = ground (arith, lookup-finish_all x m)

Above-finish_all : (b : ℕ) (m : Map ℕ Client) → Above b m → Above b (finish_all m)
unfolding finish_all
Above-finish_all b [] a = tt
Above-finish_all b ((k, c) ∷ m) a = (a.0, Above-finish_all b m a.1)

Sorted-finish_all : (m : Map ℕ Client) → Sorted m → Sorted (finish_all m)
unfolding finish_all
Sorted-finish_all [] s = tt
Sorted-finish_all ((k, c) ∷ m) s = (Above-finish_all k m s.0, Sorted-finish_all m s.1)

has-finish_all : (x : ℕ) (m : Map ℕ Client) → has x m ≡ true → has x (finish_all m) ≡ true
unfolding has
has-finish_all x m h = ground (arith, lookup-finish_all x m)

finish_all-ClientsOk : (m : Map ℕ Client) → Entries ClientOk m → Entries ClientOk (finish_all m)
unfolding finish_all
finish_all-ClientsOk [] h = tt
finish_all-ClientsOk ((fd, c) ∷ m) h = (
  KeptBounded-ClientOk fd c (finish_closing c) (finish_closing_kept c) h.0,
  finish_all-ClientsOk m h.1,
)

-- A client after the loop was one before it, alive if it is, with the same nickname.
finished_back :
    (m : Map ℕ Client) (x : ℕ) (c : Client)
    → lookup x (finish_all m) ≡ some c
    → c.dead ≡ false
    → (b : Client) × (lookup x m ≡ some b) × (b.dead ≡ false) × (c.nickname ≡ b.nickname)
finished_back m x c e a = elim (Option-cases (lookup x m)) [
  | inl gone ↦ absurd (ground (arith, lookup-finish_all x m))
  | inr (b, there) ↦
      let k = (finish_closing_kept b).kept in
      (
        b,
        there,
        ground (arith, lookup-finish_all x m, k.no_revival),
        ground (arith, lookup-finish_all x m, k.nickname_same),
      )
]

pub finish_all-Inv : (s : Server) → Inv s → Inv (record s { clients = finish_all s.clients })
finish_all-Inv s i =
    let m = s.clients in
    record {
      named = i.named;
      channels_ok =
          map-Entries (λ _ ch. ChannelOk m ch) (λ _ ch. ChannelOk (finish_all m) ch) s.channels
            (λ _ ch o. record {
              well_formed = o.well_formed;
              members_known = λ x e. has-finish_all x m (o.members_known x e);
              invited_known = λ x e. has-finish_all x m (o.invited_known x e);
            })
            i.channels_ok;
      clients_ok = finish_all-ClientsOk m i.clients_ok;
      nicks_ok = record {
        sorted = Sorted-finish_all m i.nicks_ok.sorted;
        unique = λ x y c d lx ly ax ay ne e.
            let (b, lb, ab, nb) = finished_back m x c lx ax in
            let (b', lb', ab', nb') = finished_back m y d ly ay in
            i.nicks_ok.unique x y b b' lb lb' ab ab' (λ z. ne (nb ∙ z)) (rw (← nb, ← nb') e);
      };
    }

-- The removal of all clients that are dead, or closing with nothing left to send, keeps the
-- invariant.
pub reap_dead_clients-Inv : (s : Server) → Inv s → Inv (reap_dead_clients s)
unfolding reap_dead_clients
reap_dead_clients-Inv s i = disconnect_all-Inv _ _ (finish_all-Inv s i)
