-- ===== src/Command/Effects/Join.antt =====
-- src/commands/Join.cpp: what one name of a JOIN does to the channels.
use mathlib.Core.Option
use irc.Base.{
  ℕ, ◌≡◌, refl, ◌∙◌, Bool, true, false, not, ◌&&◌, ◌||◌, none, some, arith, is_empty, ltb, ◌==◌,
  if◌then◌else◌, Option-cases, Bool-cases, inl, inr,
}
use irc.Text.{Text, text_eq, text_eq_iff, text_key}
use irc.Client.{Client}
use irc.Channel.{Channel, new_channel, is_member, is_invited, get_members_count}
use irc.Server.{Server, find_channel, create_channel, update_channel}
use irc.Command.Join.{
  is_valid_channel_name, enter, open_channel, describe_channel, announce_join, join_existing,
  join_new, join_one,
}
use irc.Policy.Invariant.All.{Inv}
use irc.Command.Effects.Results.{
  opened, entered, open_channel-opened, enter-entered, found-WellFormed,
}
use irc.Command.Effects.{
  find_channel-tell, find_channel-tell-broadcast, find_channel-update_channel,
  find_channel-create_channel,
}

-- The channel admits a client that is no member yet, has the key if there is one, is invited if
-- that is asked for, and finds room.
abbrev pub admits : ℕ → Text → Channel → Bool
admits fd key ch =
    not (is_member fd ch)
    && (is_empty ch.password || text_eq ch.password key)
    && (not ch.is_invite_only || is_invited fd ch)
    && (ch.user_limit == 0 || ltb (get_members_count ch) ch.user_limit)

find_channel-describe_channel :
    (other : Text) (fd : ℕ) (who : Client) (name : Text) (ch : Channel) (s : Server)
    → find_channel other (describe_channel fd who name ch s) ≡ find_channel other s
unfolding describe_channel
find_channel-describe_channel other fd who name ch s =
    find_channel-tell other fd _ _
    ∙ find_channel-tell other fd _ _
    ∙ (elim (Bool-cases (is_empty ch.topic)) [
      | inl e ↦ rw e refl
      | inr e ↦ rw e (find_channel-tell other fd _ s)
    ])

find_channel-announce_join :
    (other : Text) (fd : ℕ) (who : Client) (name : Text) (is_new : Bool) (ch : Channel) (s : Server)
    → find_channel other (announce_join fd who name is_new ch s) ≡ find_channel other s
unfolding announce_join
find_channel-announce_join other fd who name true ch s =
    find_channel-describe_channel other fd who name ch _
    ∙ find_channel-tell other fd _ _
    ∙ find_channel-tell-broadcast other fd _ ch.members _ (some fd) s
find_channel-announce_join other fd who name false ch s =
    find_channel-describe_channel other fd who name ch _
    ∙ find_channel-tell-broadcast other fd _ ch.members _ (some fd) s

-- What is under a name after a channel with this name has admitted the client or not.
find_channel-join_existing :
    (other : Text) (fd : ℕ) (who : Client) (name key : Text) (ch : Channel) (s : Server)
    → find_channel other (join_existing fd who name key ch s) ≡ (
        if text_eq name other && admits fd key ch
        then Option.map (enter fd) (find_channel other s)
        else find_channel other s)
unfolding join_existing
find_channel-join_existing other fd who name key ch s = grind (
  arith,
  find_channel-tell other fd,
  find_channel-announce_join other fd who name false (enter fd ch)
      (update_channel name (enter fd) s),
  find_channel-update_channel other name (enter fd) s,
)

find_channel-join_new :
    (other : Text) (fd : ℕ) (who : Client) (name : Text) (s : Server)
    → find_channel name s ≡ none
    → find_channel other (join_new fd who name s) ≡ (
        if text_eq name other
        then some (open_channel fd (new_channel name))
        else find_channel other s)
unfolding join_new
find_channel-join_new other fd who name s free =
    let opened = update_channel name (open_channel fd) (create_channel name s) in
    let there : find_channel other opened ≡ (
        if text_eq name other
        then some (open_channel fd (new_channel name))
        else find_channel other s) =
      ground (
        arith,
        find_channel-update_channel other name (open_channel fd) (create_channel name s),
        find_channel-create_channel other name s free,
      ) in
    elim (Option-cases (find_channel name opened)) [
      | inl missing ↦ rw (missing, join_new) there
      | inr (ch, e) ↦
          rw (e, join_new) (find_channel-announce_join other fd who name true ch opened ∙ there)
    ]

-- JOIN of one name, by the functions with which the handler changes a channel.
join_one-changes :
    (other : Text) (fd : ℕ) (who : Client) (name key : Text) (s : Server)
    → find_channel other (join_one fd who name key s) ≡ (
        if is_valid_channel_name name && text_eq name other
        then elim (find_channel name s) [
          | none ↦ some (open_channel fd (new_channel name))
          | some ch ↦ some (if admits fd key ch then enter fd ch else ch)
        ]
        else find_channel other s)
unfolding join_one
join_one-changes other fd who name key s = elim (Bool-cases (is_valid_channel_name name)) [
  | inl valid ↦ elim (Option-cases (find_channel name s)) [
    | inl free ↦ rw (valid, free, join_one) (find_channel-join_new other fd who name s free)
    | inr (ch, e) ↦
        rw (valid, e, join_one)
          (ground (
            arith,
            find_channel-join_existing other fd who name key ch s,
            e,
            (text_eq_iff name other),
          ))
  ]
  | inr invalid ↦ rw (invalid, join_one) (find_channel-tell other fd _ s)
]

-- From a state with the invariant, after JOIN of one name: under a valid name that was free there is
-- a new channel, whose only member and operator is the client, with a restricted topic and nothing
-- else set; a channel under a valid name that admits the client has it as its last member, and no
-- invitation for it, and is otherwise as it was; every other channel is as it was.
pub find_channel-join_one :
    (other : Text) (fd : ℕ) (who : Client) (name key : Text) (s : Server)
    → Inv s
    → find_channel other (join_one fd who name key s) ≡ (
        if is_valid_channel_name name && text_eq name other
        then elim (find_channel name s) [
          | none ↦ some (opened fd name)
          | some ch ↦ some (if admits fd key ch then entered fd ch else ch)
        ]
        else find_channel other s)
find_channel-join_one other fd who name key s i =
    let changes = join_one-changes other fd who name key s in
    elim (Option-cases (find_channel name s)) [
      | inl free ↦ rw free (rw (free, open_channel-opened fd name) at changes)
      | inr (ch, e) ↦ elim (Bool-cases (admits fd key ch)) [
        | inl admitted ↦ rw e (
            ground (
              arith,
              (rw e at changes),
              admitted,
              enter-entered fd ch (found-WellFormed name s i e) (ground (arith, admitted)),
            ))
        | inr refused ↦ rw e (ground (arith, (rw e at changes), refused))
      ]
    ]
