-- ===== src/Policy/Invariant/Channels.antt =====
-- Every channel is well formed, and its members and guests are clients of the server.
use irc.Base.{ℕ, ◌≡◌, ◌≢◌, refl, sym, ◌∙◌, true, List, arith, none, some, Option-cases, inl, inr}
use irc.Text.{Text, int_key, text_key}
use irc.Map.{Map, lookup, modify}
use irc.Map.Laws.{
  Entries, insert-Entries, erase-Entries, modify-Entries, map-Entries, has, has-modify,
}
use irc.Client.{Client}
use irc.Channel.{Channel, new_channel, remove_member, add_operator, remove_operator, add_invited}
use irc.Server.{
  Server, tell, find_channel, create_channel, remove_channel, update_client, update_channel,
}
use irc.Command.Join.{open_channel, enter}
use irc.Policy
use irc.Server.Find.{find_client_by_nick-lookup}
use irc.Base.{get_or, []}
pub use irc.Policy.Invariant.Members.{ChannelOk}
use irc.Policy.Invariant.Members.{
  new_channel-ChannelOk, remove_member-ChannelOk, add_operator-ChannelOk, remove_operator-ChannelOk,
  add_invited-ChannelOk, enter-ChannelOk, same_people, apply-ChannelOk, open_channel-ChannelOk,
}

abbrev pub ChannelsOk : Server → Type 0
ChannelsOk s = Entries (λ _ ch. ChannelOk s.clients ch) s.channels

-- A write to a client leaves the clients the same.
pub update_client-ChannelsOk :
    (fd : ℕ) (f : Client → Client) (s : Server) → ChannelsOk s → ChannelsOk (update_client fd f s)
unfolding update_client
update_client-ChannelsOk fd f s h =
    map-Entries (λ _ ch. ChannelOk s.clients ch) (λ _ ch. ChannelOk (modify fd f s.clients) ch)
      s.channels
      (λ _ ch o. record {
        well_formed = o.well_formed;
        members_known = λ x m. has-modify x fd f s.clients ∙ o.members_known x m;
        invited_known = λ x m. has-modify x fd f s.clients ∙ o.invited_known x m;
      })
      h

update_channel-ChannelsOk :
    (name : Text) (f : Channel → Channel) (s : Server)
    → ((ch : Channel)
        → find_channel name s ≡ some ch
        → ChannelOk s.clients ch
        → ChannelOk s.clients (f ch))
    → ChannelsOk s
    → ChannelsOk (update_channel name f s)
unfolding update_channel
update_channel-ChannelsOk name f s keep h =
    modify-Entries (λ _ ch. ChannelOk s.clients ch) name f s.channels keep h

create_channel-ChannelsOk :
    (name : Text) (s : Server) → ChannelsOk s → ChannelsOk (create_channel name s)
unfolding create_channel
create_channel-ChannelsOk name s h = elim (Option-cases (find_channel name s)) [
  | inl e ↦
      rw (e, create_channel)
        (insert-Entries (λ _ ch. ChannelOk s.clients ch) name (new_channel name) s.channels
          (new_channel-ChannelOk s.clients name) h)
  | inr (ch, e) ↦ rw (e, create_channel) h
]

pub clients-create_channel :
    (name : Text) (s : Server) → (create_channel name s).clients ≡ s.clients
unfolding create_channel
clients-create_channel name s = ground arith

has-ne-none : (x : ℕ) (m : Map ℕ Client) → lookup x m ≢ none → has x m ≡ true
unfolding has
has-ne-none x m h = ground arith

module _ {fd : ℕ} {who : Client} {params : List Text} {start : Server} where
  -- No act adds or removes a client.
  pub has-Act :
      {s t : Server} (x : ℕ)
      → Policy.Act fd who params start s t
      → has x t.clients ≡ has x s.clients
  unfolding tell update_client update_channel remove_channel
  has-Act x (Policy.tells y m) = has-modify x y _ _
  has-Act x (Policy.authenticates p) = has-modify x fd _ _
  has-Act x Policy.fails_pass = has-modify x fd _ _
  has-Act x (Policy.closes reason) = has-modify x fd _ _
  has-Act x (Policy.identifies u h a v) = has-modify x fd _ _
  has-Act x (Policy.renames u h a v f) = has-modify x fd _ _
  has-Act {s} x (Policy.creates name r a v e) = rw (clients-create_channel name s)
  has-Act x (Policy.joins name ch r e m) = refl
  has-Act x (Policy.leaves name r a) = refl
  has-Act x (Policy.removes name ch r e z) = refl
  has-Act x (Policy.kicks name ch target r a e op m) = refl
  has-Act x (Policy.invites name ch target r a e m o i) = refl
  has-Act x (Policy.retopics name topic ch r a e m op) = refl
  has-Act x (Policy.sets name change r a op) = refl
  has-Act x (Policy.promotes name ch target r a op e m) = refl
  has-Act x (Policy.demotes name target r a op) = refl

  -- Every act keeps the channels in order.
  pub Act-ChannelsOk :
      {s t : Server}
      → Policy.Act fd who params start s t
      → has fd s.clients ≡ true
      → ChannelsOk s
      → ChannelsOk t
  unfolding tell remove_channel
  Act-ChannelsOk {s} (Policy.tells x m) k h = update_client-ChannelsOk x _ s h
  Act-ChannelsOk {s} (Policy.authenticates p) k h = update_client-ChannelsOk fd _ s h
  Act-ChannelsOk {s} Policy.fails_pass k h = update_client-ChannelsOk fd _ s h
  Act-ChannelsOk {s} (Policy.closes reason) k h = update_client-ChannelsOk fd _ s h
  Act-ChannelsOk {s} (Policy.identifies u p a v) k h = update_client-ChannelsOk fd _ s h
  Act-ChannelsOk {s} (Policy.renames u p a v f) k h = update_client-ChannelsOk fd _ s h
  Act-ChannelsOk {s} (Policy.creates name r a v e) k h =
      update_channel-ChannelsOk name (open_channel fd) (create_channel name s)
        (λ ch _ o. open_channel-ChannelOk _ fd ch (rw (clients-create_channel name s) k) o)
        (create_channel-ChannelsOk name s h)
  Act-ChannelsOk {s} (Policy.joins name ch r e m) k h =
      update_channel-ChannelsOk name (enter fd) s (λ c _ o. enter-ChannelOk s.clients fd c k o) h
  Act-ChannelsOk {s} (Policy.leaves name r a) k h =
      update_channel-ChannelsOk name (remove_member fd) s
        (λ c _ o. remove_member-ChannelOk s.clients fd c o) h
  Act-ChannelsOk {s} (Policy.removes name ch r e z) k h =
      erase-Entries (λ _ c. ChannelOk s.clients c) name s.channels h
  Act-ChannelsOk {s} (Policy.kicks name ch target r a e op m) k h =
      update_channel-ChannelsOk name (remove_member target) s
        (λ c _ o. remove_member-ChannelOk s.clients target c o) h
  Act-ChannelsOk {s} (Policy.invites name ch target r a e m o i) k h =
      update_channel-ChannelsOk name (add_invited target) s
        (λ c _ o'.
          add_invited-ChannelOk s.clients target c
            (has-ne-none target s.clients (find_client_by_nick-lookup (get_or params 0 []) s a.1))
            o')
        h
  Act-ChannelsOk {s} (Policy.retopics name topic ch r a e m op) k h =
      update_channel-ChannelsOk name (λ c. record c { topic = topic }) s
        (λ c _ o. same_people s.clients c (record c { topic = topic }) refl refl refl o) h
  Act-ChannelsOk {s} (Policy.sets name change r a op) k h =
      update_channel-ChannelsOk name (Policy.apply change) s
        (λ c _ o. apply-ChannelOk s.clients change c o) h
  Act-ChannelsOk {s} (Policy.promotes name ch target r a op e m) k h =
      update_channel-ChannelsOk name (add_operator target) s
        (λ c found o.
          add_operator-ChannelOk s.clients target c
            (let same : some c ≡ some ch = sym found ∙ e in ground arith) o)
        h
  Act-ChannelsOk {s} (Policy.demotes name target r a op) k h =
      update_channel-ChannelsOk name (remove_operator target) s
        (λ c _ o. remove_operator-ChannelOk s.clients target c o) h
