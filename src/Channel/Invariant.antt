-- ===== src/Channel/Invariant.antt =====
-- The invariant of a channel, kept by each operation, and who belongs to it afterwards.
use irc.Base.{
  ℕ, ◌≡◌, true, not, ◌&&◌, ◌||◌, [], ◌∷◌, arith, ◌==◌, Distinct, Within, contains-append,
  contains-erase_first, erase_first-Distinct, concat-Distinct,
}
use irc.Text.{Text}
use irc.Channel.{
  Channel, new_channel, is_member, is_operator, is_invited, add_member, add_operator,
  remove_operator, remove_member, add_invited, remove_invited,
}

-- No client stands twice in a list, and every operator is a member.
pub record WellFormed (ch : Channel) : Type 0 where
  pub members_distinct : Distinct ch.members
  pub operators_distinct : Distinct ch.operators
  pub invited_distinct : Distinct ch.invited_clients
  pub operators_members : Within ch.operators ch.members

pub new_channel-WellFormed : (name : Text) → WellFormed (new_channel name)
unfolding new_channel
new_channel-WellFormed name = record {
  members_distinct = tt;
  operators_distinct = tt;
  invited_distinct = tt;
  operators_members = λ x h. h;
}

-- Who is a member after each operation.
pub is_member-add_member :
    (x client : ℕ) (ch : Channel)
    → is_member x (add_member client ch) ≡ (x == client || is_member x ch)
unfolding add_member
is_member-add_member x client ch = ground (arith, contains-append x ch.members (client ∷ []))

-- In a well formed channel, after the removal of a client exactly the other members are left.
pub is_member-remove_member :
    (x client : ℕ) (ch : Channel)
    → WellFormed ch
    → is_member x (remove_member client ch) ≡ (not (x == client) && is_member x ch)
unfolding remove_member
is_member-remove_member x client ch w =
    ground (arith, contains-erase_first x client ch.members w.members_distinct)

pub is_operator-add_operator :
    (x client : ℕ) (ch : Channel)
    → is_operator x (add_operator client ch) ≡ (x == client || is_operator x ch)
unfolding add_operator
is_operator-add_operator x client ch = ground (arith, contains-append x ch.operators (client ∷ []))

pub is_operator-remove_member :
    (x client : ℕ) (ch : Channel)
    → WellFormed ch
    → is_operator x (remove_member client ch) ≡ (not (x == client) && is_operator x ch)
unfolding remove_member
is_operator-remove_member x client ch w =
    ground (arith, contains-erase_first x client ch.operators w.operators_distinct)

pub is_operator-remove_operator :
    (x client : ℕ) (ch : Channel)
    → WellFormed ch
    → is_operator x (remove_operator client ch) ≡ (not (x == client) && is_operator x ch)
unfolding remove_operator
is_operator-remove_operator x client ch w =
    ground (arith, contains-erase_first x client ch.operators w.operators_distinct)

pub is_invited-add_invited :
    (x client : ℕ) (ch : Channel)
    → is_invited x (add_invited client ch) ≡ (x == client || is_invited x ch)
unfolding add_invited
is_invited-add_invited x client ch =
    ground (arith, contains-append x ch.invited_clients (client ∷ []))

pub is_invited-remove_invited :
    (x client : ℕ) (ch : Channel)
    → WellFormed ch
    → is_invited x (remove_invited client ch) ≡ (not (x == client) && is_invited x ch)
unfolding remove_invited
is_invited-remove_invited x client ch w =
    ground (arith, contains-erase_first x client ch.invited_clients w.invited_distinct)

pub add_member-WellFormed :
    (client : ℕ) (ch : Channel) → WellFormed ch → WellFormed (add_member client ch)
unfolding add_member
add_member-WellFormed client ch w = record {
  members_distinct = ground (arith, concat-Distinct ch.members client w.members_distinct);
  operators_distinct = ground (arith, w.operators_distinct);
  invited_distinct = ground (arith, w.invited_distinct);
  operators_members =
      λ x h. ground (arith, w.operators_members x, contains-append x ch.members (client ∷ []));
}

-- A member who is made an operator keeps a channel well formed.
pub add_operator-WellFormed :
    (client : ℕ) (ch : Channel)
    → is_member client ch ≡ true
    → WellFormed ch
    → WellFormed (add_operator client ch)
unfolding add_operator
add_operator-WellFormed client ch m w = record {
  members_distinct = ground (arith, w.members_distinct);
  operators_distinct = ground (arith, concat-Distinct ch.operators client w.operators_distinct);
  invited_distinct = ground (arith, w.invited_distinct);
  operators_members =
      λ x h. ground (arith, w.operators_members x, contains-append x ch.operators (client ∷ []));
}

pub remove_operator-WellFormed :
    (client : ℕ) (ch : Channel) → WellFormed ch → WellFormed (remove_operator client ch)
unfolding remove_operator
remove_operator-WellFormed client ch w = record {
  members_distinct = ground (arith, w.members_distinct);
  operators_distinct =
      ground (arith, erase_first-Distinct client ch.operators w.operators_distinct);
  invited_distinct = ground (arith, w.invited_distinct);
  operators_members = λ x h. ground (
    arith,
    w.operators_members x,
    contains-erase_first x client ch.operators w.operators_distinct,
  );
}

-- The removal of a member, with its operator right, keeps a channel well formed.
pub remove_member-WellFormed :
    (client : ℕ) (ch : Channel) → WellFormed ch → WellFormed (remove_member client ch)
unfolding remove_member
remove_member-WellFormed client ch w = record {
  members_distinct = ground (arith, erase_first-Distinct client ch.members w.members_distinct);
  operators_distinct =
      ground (arith, erase_first-Distinct client ch.operators w.operators_distinct);
  invited_distinct = ground (arith, w.invited_distinct);
  operators_members = λ x h. ground (
    arith,
    w.operators_members x,
    w.operators_members client,
    contains-erase_first x client ch.members w.members_distinct,
    contains-erase_first x client ch.operators w.operators_distinct,
  );
}

pub add_invited-WellFormed :
    (client : ℕ) (ch : Channel) → WellFormed ch → WellFormed (add_invited client ch)
unfolding add_invited
add_invited-WellFormed client ch w = record {
  members_distinct = ground (arith, w.members_distinct);
  operators_distinct = ground (arith, w.operators_distinct);
  invited_distinct = ground (arith, concat-Distinct ch.invited_clients client w.invited_distinct);
  operators_members = λ x h. ground (arith, w.operators_members x);
}

pub remove_invited-WellFormed :
    (client : ℕ) (ch : Channel) → WellFormed ch → WellFormed (remove_invited client ch)
unfolding remove_invited
remove_invited-WellFormed client ch w = record {
  members_distinct = ground (arith, w.members_distinct);
  operators_distinct = ground (arith, w.operators_distinct);
  invited_distinct =
      ground (arith, erase_first-Distinct client ch.invited_clients w.invited_distinct);
  operators_members = λ x h. ground (arith, w.operators_members x);
}
