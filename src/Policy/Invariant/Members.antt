-- ===== src/Policy/Invariant/Members.antt =====
-- One channel: it is well formed, its members and guests are clients of the server, and what the
-- acts do to a channel keeps this.
use irc.Base.{ℕ, ◌≡◌, refl, true, arith}
use irc.Text.{Text, int_key, text_key}
use irc.Map.{Map}
use irc.Map.Laws.{has}
use irc.Client.{Client}
use irc.Channel.{
  Channel, is_member, is_invited, new_channel, remove_member, add_member, add_operator,
  remove_operator, add_invited, remove_invited,
}
use irc.Channel.Invariant
use irc.Channel.Invariant.{WellFormed}
use irc.Command.Join.{open_channel, enter}
use irc.Policy

pub record ChannelOk (clients : Map ℕ Client) (ch : Channel) : Type 0 where
  pub well_formed : WellFormed ch
  pub members_known : (x : ℕ) → is_member x ch ≡ true → has x clients ≡ true
  pub invited_known : (x : ℕ) → is_invited x ch ≡ true → has x clients ≡ true

module _ (m : Map ℕ Client) where
  pub new_channel-ChannelOk : (name : Text) → ChannelOk m (new_channel name)
  unfolding new_channel
  new_channel-ChannelOk name = record {
    well_formed = unfold new_channel in Invariant.new_channel-WellFormed name;
    members_known = λ x e. cc;
    invited_known = λ x e. cc;
  }

  pub remove_member-ChannelOk :
      (client : ℕ) (ch : Channel) → ChannelOk m ch → ChannelOk m (remove_member client ch)
  remove_member-ChannelOk client ch o = record {
    well_formed = Invariant.remove_member-WellFormed client ch o.well_formed;
    members_known = λ x e.
        o.members_known x
          (ground (arith, Invariant.is_member-remove_member x client ch o.well_formed));
    invited_known = λ x e. o.invited_known x (unfold remove_member in ground arith);
  }

  pub add_operator-ChannelOk :
      (client : ℕ) (ch : Channel)
      → is_member client ch ≡ true
      → ChannelOk m ch
      → ChannelOk m (add_operator client ch)
  add_operator-ChannelOk client ch e o = record {
    well_formed = Invariant.add_operator-WellFormed client ch e o.well_formed;
    members_known = λ x k. o.members_known x (unfold add_operator in ground arith);
    invited_known = λ x k. o.invited_known x (unfold add_operator in ground arith);
  }

  pub remove_operator-ChannelOk :
      (client : ℕ) (ch : Channel) → ChannelOk m ch → ChannelOk m (remove_operator client ch)
  remove_operator-ChannelOk client ch o = record {
    well_formed = Invariant.remove_operator-WellFormed client ch o.well_formed;
    members_known = λ x k. o.members_known x (unfold remove_operator in ground arith);
    invited_known = λ x k. o.invited_known x (unfold remove_operator in ground arith);
  }

  add_member-ChannelOk :
      (client : ℕ) (ch : Channel)
      → has client m ≡ true
      → ChannelOk m ch
      → ChannelOk m (add_member client ch)
  add_member-ChannelOk client ch k o = record {
    well_formed = Invariant.add_member-WellFormed client ch o.well_formed;
    members_known =
        λ x e. ground (arith, o.members_known x, Invariant.is_member-add_member x client ch);
    invited_known = λ x e. o.invited_known x (unfold add_member in ground arith);
  }

  pub add_invited-ChannelOk :
      (client : ℕ) (ch : Channel)
      → has client m ≡ true
      → ChannelOk m ch
      → ChannelOk m (add_invited client ch)
  add_invited-ChannelOk client ch k o = record {
    well_formed = Invariant.add_invited-WellFormed client ch o.well_formed;
    members_known = λ x e. o.members_known x (unfold add_invited in ground arith);
    invited_known =
        λ x e. ground (arith, o.invited_known x, Invariant.is_invited-add_invited x client ch);
  }

  pub remove_invited-ChannelOk :
      (client : ℕ) (ch : Channel) → ChannelOk m ch → ChannelOk m (remove_invited client ch)
  remove_invited-ChannelOk client ch o = record {
    well_formed = Invariant.remove_invited-WellFormed client ch o.well_formed;
    members_known = λ x e. o.members_known x (unfold remove_invited in ground arith);
    invited_known = λ x e.
        o.invited_known x
          (ground (arith, Invariant.is_invited-remove_invited x client ch o.well_formed));
  }

  pub enter-ChannelOk :
      (fd : ℕ) (ch : Channel) → has fd m ≡ true → ChannelOk m ch → ChannelOk m (enter fd ch)
  unfolding enter
  enter-ChannelOk fd ch k o =
      let joined = add_member-ChannelOk fd ch k o in
      ground (arith, joined, remove_invited-ChannelOk fd (add_member fd ch) joined)

  -- A write to the topic or to a mode.
  pub same_people :
      (ch ch' : Channel)
      → ch'.members ≡ ch.members
      → ch'.operators ≡ ch.operators
      → ch'.invited_clients ≡ ch.invited_clients
      → ChannelOk m ch
      → ChannelOk m ch'
  same_people ch ch' a b c o =
      let w = o.well_formed in
      record {
        well_formed = record {
          members_distinct = rw a w.members_distinct;
          operators_distinct = rw b w.operators_distinct;
          invited_distinct = rw c w.invited_distinct;
          operators_members = λ x e. rw a (w.operators_members x (rw b at e));
        };
        members_known = λ x e. o.members_known x (rw a at e);
        invited_known = λ x e. o.invited_known x (rw c at e);
      }

  pub apply-ChannelOk :
      (change : Policy.Setting) (ch : Channel)
      → ChannelOk m ch
      → ChannelOk m (Policy.apply change ch)
  apply-ChannelOk (Policy.invite_only b) ch o = same_people ch _ refl refl refl o
  apply-ChannelOk (Policy.topic_restricted b) ch o = same_people ch _ refl refl refl o
  apply-ChannelOk (Policy.password key) ch o = same_people ch _ refl refl refl o
  apply-ChannelOk (Policy.user_limit n) ch o = same_people ch _ refl refl refl o

  pub open_channel-ChannelOk :
      (fd : ℕ) (ch : Channel) → has fd m ≡ true → ChannelOk m ch → ChannelOk m (open_channel fd ch)
  unfolding open_channel
  open_channel-ChannelOk fd ch k o =
      let topped : Channel = record ch { topic_restricted = true } in
      add_operator-ChannelOk fd (add_member fd topped)
        (ground (arith, Invariant.is_member-add_member fd fd topped))
        (add_member-ChannelOk fd topped k (same_people ch topped refl refl refl o))
