-- ===== src/Policy/Names.antt =====
-- Every channel stands in the map under its own name.
use irc.Base.{ℕ, ◌≡◌, refl, ◌∙◌, arith, List, Option-cases, inl, inr}
use irc.Text.{Text, int_key, text_key}
use irc.Map.Laws.{Entries, insert-Entries, erase-Entries, modify-Entries}
use irc.Client.{Client}
use irc.Channel.{
  Channel, new_channel, remove_member, add_member, add_operator, remove_operator, add_invited,
  remove_invited,
}
use irc.Server.{
  Server, tell, find_channel, create_channel, remove_channel, update_client, update_channel,
}
use irc.Command.Join.{open_channel, enter}
use irc.Policy

abbrev pub Named : Server → Type 0
Named s = Entries (λ name ch. ch.name ≡ name) s.channels

update_channel-Named :
    (name : Text) (f : Channel → Channel) (s : Server)
    → ((ch : Channel) → (f ch).name ≡ ch.name)
    → Named s
    → Named (update_channel name f s)
unfolding update_channel
update_channel-Named name f s keep n =
    modify-Entries (λ k ch. ch.name ≡ k) name f s.channels (λ ch _ e. keep ch ∙ e) n

create_channel-Named : (name : Text) (s : Server) → Named s → Named (create_channel name s)
unfolding create_channel new_channel
create_channel-Named name s n = elim (Option-cases (find_channel name s)) [
  | inl e ↦
      rw (e, create_channel)
        (insert-Entries (λ k ch. ch.name ≡ k) name (new_channel name) s.channels refl n)
  | inr (ch, e) ↦ rw (e, create_channel) n
]

name-apply : (change : Policy.Setting) (ch : Channel) → (Policy.apply change ch).name ≡ ch.name
name-apply (Policy.invite_only b) ch = refl
name-apply (Policy.topic_restricted b) ch = refl
name-apply (Policy.password key) ch = refl
name-apply (Policy.user_limit n) ch = refl

name-enter : (fd : ℕ) (ch : Channel) → (enter fd ch).name ≡ ch.name
unfolding enter add_member remove_invited
name-enter fd ch = ground arith

name-open_channel : (fd : ℕ) (ch : Channel) → (open_channel fd ch).name ≡ ch.name
unfolding open_channel add_member add_operator
name-open_channel fd ch = ground arith

name-remove_member : (fd : ℕ) (ch : Channel) → (remove_member fd ch).name ≡ ch.name
unfolding remove_member
name-remove_member fd ch = ground arith

module _ {fd : ℕ} {who : Client} {params : List Text} {start : Server} where
  pub Act-Named : {s t : Server} → Policy.Act fd who params start s t → Named s → Named t
  unfolding tell update_client remove_channel add_operator remove_operator add_invited
  Act-Named (Policy.tells x m) n = n
  Act-Named (Policy.authenticates p) n = n
  Act-Named Policy.fails_pass n = n
  Act-Named (Policy.closes reason) n = n
  Act-Named (Policy.identifies u h a v) n = n
  Act-Named (Policy.renames u h a v f) n = n
  Act-Named {s} (Policy.creates name r a v e) n =
      update_channel-Named name (open_channel fd) (create_channel name s) (name-open_channel fd)
        (create_channel-Named name s n)
  Act-Named {s} (Policy.joins name ch r e m) n =
      update_channel-Named name (enter fd) s (name-enter fd) n
  Act-Named {s} (Policy.leaves name r a) n =
      update_channel-Named name (remove_member fd) s (name-remove_member fd) n
  Act-Named {s} (Policy.removes name ch r e z) n =
      erase-Entries (λ k c. c.name ≡ k) name s.channels n
  Act-Named {s} (Policy.kicks name ch target r a e op m) n =
      update_channel-Named name (remove_member target) s (name-remove_member target) n
  Act-Named {s} (Policy.invites name ch target r a e m o i) n =
      update_channel-Named name (add_invited target) s (λ c. ground arith) n
  Act-Named {s} (Policy.retopics name topic ch r a e m op) n =
      update_channel-Named name (λ c. record c { topic = topic }) s (λ c. refl) n
  Act-Named {s} (Policy.sets name change r a op) n =
      update_channel-Named name (Policy.apply change) s (name-apply change) n
  Act-Named {s} (Policy.promotes name ch target r a op e m) n =
      update_channel-Named name (add_operator target) s (λ c. ground arith) n
  Act-Named {s} (Policy.demotes name target r a op) n =
      update_channel-Named name (remove_operator target) s (λ c. ground arith) n

  pub Acts-Named : {s t : Server} → Policy.Acts fd who params start s t → Named s → Named t
  Acts-Named Policy.done n = n
  Acts-Named (Policy.also p a) n = Act-Named a (Acts-Named p n)
