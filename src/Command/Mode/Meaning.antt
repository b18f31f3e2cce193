-- ===== src/Command/Mode/Meaning.antt =====
-- src/commands/ModeCommand.cpp, read independently of the channel: the changes that a mode string
-- with its parameters asks for, and what they make of the settings of a channel.
pub mod Changed
pub mod Step
pub mod Settled
pub mod Letters
pub mod Loop
pub mod Shown
use irc.Base.{
  ℕ, Bool, true, false, not, ◌&&◌, ◌||◌, List, [], ◌∷◌, ◌++◌, is_empty, all, ◌==◌, if◌then◌else◌,
}
use irc.Text.{Text, text_eq}
use irc.Text.Decimal.{is_digit, atoi, is_positive_int}
use irc.Channel.{Channel}
use irc.Command.Mode.Changes.{is_bad_key}

-- The four modes that are settings of the channel.
pub record Settings : Type 0 where
  pub invite_only : Bool
  pub topic_restricted : Bool
  pub key : Text
  pub limit : ℕ

abbrev pub settings : Channel → Settings
settings ch = record {
  invite_only = ch.is_invite_only;
  topic_restricted = ch.topic_restricted;
  key = ch.password;
  limit = ch.user_limit;
}

pub data Change : Type 0 where
  invited_only restricts_topic : Bool → Change
  gives_key takes_key : Text → Change
  limits_to : ℕ → Change

-- A key is given only where there is none, and taken only by one who names it.
unfoldable pub apply_change : Change → Settings → Settings
apply_change (invited_only b) s = record s { invite_only = b }
apply_change (restricts_topic b) s = record s { topic_restricted = b }
apply_change (gives_key key) s = if is_empty s.key then record s { key = key } else s
apply_change (takes_key key) s = if text_eq s.key key then record s { key = [] } else s
apply_change (limits_to n) s = record s { limit = n }

unfoldable pub apply_changes : List Change → Settings → Settings
apply_changes [] s = s
apply_changes (c ∷ cs) s = apply_changes cs (apply_change c s)

-- A letter with its sign and the parameter that it takes.
unfoldable pub read_key : Bool → Text → List Change
read_key true key = if is_bad_key key then [] else gives_key key ∷ []
read_key false key = takes_key key ∷ []

-- A limit is a positive number in decimal digits.
unfoldable pub read_limit : Text → List Change
read_limit digits =
    if all is_digit digits && not (is_empty digits) && is_positive_int (atoi digits)
    then limits_to (atoi digits) ∷ []
    else []

-- What a letter leaves for the next: the sign, the parameters, and the changes that it asks for.
pub record Reading : Type 0 where
  pub plus : Bool
  pub args : List Text
  pub changes : List Change

-- The letter takes a parameter, and is void without one.
unfoldable pub read_parameter : (Text → List Change) → Bool → List Text → Reading
read_parameter f plus [] = record { plus = plus; args = []; changes = [] }
read_parameter f plus (p ∷ args) = record { plus = plus; args = args; changes = f p }

-- A letter that asks for the changes and takes no parameter.
abbrev pub plainly : List Change → Bool → List Text → Reading
plainly changes plus args = record { plus = plus; args = args; changes = changes }

unfoldable pub read_letter : ℕ → Bool → List Text → Reading
read_letter c plus args =
    if c == b'+'
    then plainly [] true args
    else if c == b'-'
    then plainly [] false args
    else if c == b'i'
    then plainly (invited_only plus ∷ []) plus args
    else if c == b't'
    then plainly (restricts_topic plus ∷ []) plus args
    else if c == b'k'
    then read_parameter (read_key plus) plus args
    else if c == b'l'
    then if plus then read_parameter read_limit plus args else plainly (limits_to 0 ∷ []) plus args
    else if c == b'o'
    then read_parameter (λ nick. []) plus args
    else plainly [] plus args

unfoldable pub read_modes : Bool → Text → List Text → List Change
read_modes plus [] args = []
read_modes plus (c ∷ cs) args =
    let r = read_letter c plus args in r.changes ++ read_modes r.plus cs r.args
