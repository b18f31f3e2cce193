-- ===== src/Command/Mode/Meaning/Changed.antt =====
-- A channel after changes of its settings, and the ways to write that lead to it.
use irc.Base.{
  erase_first, ℕ, ◌≡◌, refl, ◌∙◌, Bool, false, List, [], ◌∷◌, ◌++◌, some, arith, Bool-cases, inl,
  inr,
}
use irc.Text.{Text, text_eq, text_key}
use irc.Channel.{Channel, is_operator, add_operator, remove_operator}
use irc.Server.{Server, tell, find_channel, update_channel}
use irc.Command.Effects.{find_channel-tell, find_channel-update_channel}
use irc.Command.Mode.Meaning.{settings, Change, apply_changes}

-- What is no setting and no operator of the channel stays as it is.
pub record SameElse (ch b : Channel) : Type 0 where
  pub name_same : b.name ≡ ch.name
  pub topic_same : b.topic ≡ ch.topic
  pub members_same : b.members ≡ ch.members
  pub invited_same : b.invited_clients ≡ ch.invited_clients

-- The channel has the changed settings; the other channels are the same.
pub record Changed (target : Text) (changes : List Change) (ch : Channel) (s t : Server)
    : Type 0 where
  pub now : Channel
  pub found : find_channel target t ≡ some now
  pub settings_lem : settings now ≡ apply_changes changes (settings ch)
  pub same_else : SameElse ch now
  pub others :
      (other : Text) → text_eq target other ≡ false → find_channel other t ≡ find_channel other s

-- Only settings are written.
pub SameElse-set :
    (ch : Channel) (i t : Bool) (p : Text) (n : ℕ)
    → SameElse ch
        (record ch { is_invite_only = i; topic_restricted = t; password = p; user_limit = n })
SameElse-set ch i t p n = record {
  name_same = refl;
  topic_same = refl;
  members_same = refl;
  invited_same = refl;
}

pub SameElse-operators : (ch : Channel) (xs : List ℕ) → SameElse ch (record ch { operators = xs })
SameElse-operators ch xs = record {
  name_same = refl;
  topic_same = refl;
  members_same = refl;
  invited_same = refl;
}

pub add_operator-settings :
    (client : ℕ) (ch : Channel)
    → (settings (add_operator client ch) ≡ settings ch) × SameElse ch (add_operator client ch)
unfolding add_operator
add_operator-settings client ch = elim (Bool-cases (is_operator client ch)) [
  | inl there ↦ rw (there, add_operator) (refl, SameElse-operators ch ch.operators)
  | inr new ↦ rw (new, add_operator) (refl, SameElse-operators ch (ch.operators ++ client ∷ []))
]

pub remove_operator-settings :
    (client : ℕ) (ch : Channel)
    → (settings (remove_operator client ch) ≡ settings ch) × SameElse ch (remove_operator client ch)
unfolding remove_operator
remove_operator-settings client ch = elim (Bool-cases (is_operator client ch)) [
  | inl there ↦
      rw (there, remove_operator) (refl, SameElse-operators ch (erase_first client ch.operators))
  | inr none_there ↦ rw (none_there, remove_operator) (refl, SameElse-operators ch ch.operators)
]

pub still :
    (target : Text) (changes : List Change) (ch : Channel) (s : Server)
    → find_channel target s ≡ some ch
    → settings ch ≡ apply_changes changes (settings ch)
    → Changed target changes ch s s
still target changes ch s e h = record {
  now = ch;
  found = e;
  settings_lem = h;
  same_else = SameElse-operators ch ch.operators;
  others = λ other d. refl;
}

pub told :
    (target : Text) (changes : List Change) (ch : Channel) (x : ℕ) (m : Text) (s : Server)
    → find_channel target s ≡ some ch
    → settings ch ≡ apply_changes changes (settings ch)
    → Changed target changes ch s (tell x m s)
told target changes ch x m s e h = record {
  now = ch;
  found = find_channel-tell target x m s ∙ e;
  settings_lem = h;
  same_else = SameElse-operators ch ch.operators;
  others = λ other d. find_channel-tell other x m s;
}

pub updated :
    (target : Text) (changes : List Change) (ch : Channel) (f : Channel → Channel) (s : Server)
    → find_channel target s ≡ some ch
    → settings (f ch) ≡ apply_changes changes (settings ch)
    → SameElse ch (f ch)
    → Changed target changes ch s (update_channel target f s)
updated target changes ch f s e h k = record {
  now = f ch;
  found =
      ground
        (arith, e, find_channel-update_channel target target f s, text_key.beq_iff target target);
  settings_lem = h;
  same_else = k;
  others = λ other d. ground (arith, d, find_channel-update_channel other target f s);
}
