-- ===== src/Command/Effects/Moderate.antt =====
-- src/commands/Kick.cpp, TopicCommand.cpp and InviteCommand.cpp: what the commands of moderation do
-- to the channels.
use mathlib.Core.Option
use irc.Base.{
  ℕ, ◌≡◌, ◌∙◌, Bool, false, not, ◌&&◌, ◌||◌, List, [], Option, none, some, arith, ltb, get_or,
  length, refl, ap, if◌then◌else◌, Option-cases, Bool-cases, inl, inr,
}
use irc.Text.{Text, text_eq, text_eq_iff, text_key}
use irc.Client.{Client}
use irc.Channel.{Channel, is_member, is_operator, remove_member, add_invited, set_topic}
use irc.Server.{Server, find_channel, find_client_by_nick}
use irc.Command.Kick.{kick_member, kick_from, kick_one}
use irc.Command.Topic.{show_topic, change_topic, topic_of, execute_topic}
use irc.Command.Invite.{invite_guest, invite_to, execute_invite}
use irc.Policy.Invariant.All.{Inv}
use irc.Command.Effects.Results.{
  departed, invited, retopiced, remove_member-departed, add_invited-invited, found-WellFormed,
}
use irc.Command.Effects.{
  find_channel-tell, find_channel-tell-broadcast, find_channel-update_channel,
}

-- The client that a kick puts out, if there is one: a member of the channel, and the sender is a
-- member and an operator of it.
abbrev pub kick_target : ℕ → Text → Text → Server → Option ℕ
kick_target fd name nick s = elim (find_channel name s) [
  | none ↦ none
  | some ch ↦ elim (find_client_by_nick nick s) [
    | none ↦ none
    | some target ↦
        if is_member fd ch && is_operator fd ch && is_member target ch then some target else none
  ]
]

-- The sender may set the topic: it is a member, and an operator if the topic is restricted.
abbrev pub may_retopic : ℕ → Text → Server → Bool
may_retopic fd name s = elim (find_channel name s) [
  | none ↦ false
  | some ch ↦ is_member fd ch && (not ch.topic_restricted || is_operator fd ch)
]

-- The client that is invited, if there is one: no member yet, and the sender is a member, and an
-- operator if the channel is by invitation.
abbrev pub invite_target : ℕ → Text → Text → Server → Option ℕ
invite_target fd nick name s = elim (find_client_by_nick nick s) [
  | none ↦ none
  | some target ↦ elim (find_channel name s) [
    | none ↦ none
    | some ch ↦
        if is_member fd ch
          && not (is_member target ch)
          && (not ch.is_invite_only || is_operator fd ch)
        then some target
        else none
  ]
]

-- The channel with the name has changed by `f`, and no other.
abbrev pub only : Text → (Channel → Channel) → Server → Text → Option Channel
only name f s other =
    if text_eq name other then Option.map f (find_channel other s) else find_channel other s

find_channel-kick_member :
    (other : Text) (fd : ℕ) (who : Client) (name nick reason : Text) (target : ℕ) (ch : Channel)
    (s : Server)
    → find_channel other (kick_member fd who name nick reason target ch s)
      ≡ only name (remove_member target) s other
unfolding kick_member
find_channel-kick_member other fd who name nick reason target ch s = grind (
  arith,
  find_channel-update_channel other name (remove_member target),
  find_channel-tell-broadcast other fd,
)

find_channel-kick_from :
    (other : Text) (fd : ℕ) (who : Client) (name nick reason : Text) (ch : Channel) (s : Server)
    → find_channel name s ≡ some ch
    → find_channel other (kick_from fd who name nick reason ch s)
      ≡ (elim (kick_target fd name nick s) [
        | none ↦ find_channel other s
        | some target ↦ only name (remove_member target) s other
      ])
unfolding kick_from
find_channel-kick_from other fd who name nick reason ch s e =
    elim (Option-cases (find_client_by_nick nick s)) [
      | inl gone ↦ rw (e, gone, kick_from) (grind (arith, find_channel-tell other fd))
      | inr (target, t) ↦
          rw (e, t, kick_from)
            (grind (
              arith,
              find_channel-tell other fd,
              find_channel-kick_member other fd who name nick reason target ch s,
            ))
    ]

-- KICK of one nickname from one channel, by `removeMember`.
kick_one-changes :
    (other : Text) (fd : ℕ) (who : Client) (name nick reason : Text) (s : Server)
    → find_channel other (kick_one fd who name nick reason s) ≡ (elim (kick_target fd name nick s) [
      | none ↦ find_channel other s
      | some target ↦ only name (remove_member target) s other
    ])
unfolding kick_one
kick_one-changes other fd who name nick reason s = elim (Option-cases (find_channel name s)) [
  | inl missing ↦ rw (missing, kick_one) (find_channel-tell other fd _ s)
  | inr (ch, e) ↦
      rw (e, kick_one) (rw e at (find_channel-kick_from other fd who name nick reason ch s e))
]

find_channel-change_topic :
    (other : Text) (fd : ℕ) (who : Client) (name new_topic : Text) (ch : Channel) (s : Server)
    → find_channel other (change_topic fd who name new_topic ch s)
      ≡ only name (set_topic new_topic) s other
unfolding change_topic
find_channel-change_topic other fd who name new_topic ch s =
    find_channel-tell-broadcast other fd _ ch.members _ (some fd) _
    ∙ find_channel-update_channel other name (set_topic new_topic) s

-- TOPIC, by `setTopic`.
execute_topic-changes :
    (other : Text) (fd : ℕ) (who : Client) (params : List Text) (s : Server)
    → find_channel other (execute_topic fd who params s) ≡ (
        if ltb 1 (length params) && may_retopic fd (get_or params 0 []) s
        then only (get_or params 0 []) (set_topic (get_or params 1 [])) s other
        else find_channel other s)
unfolding execute_topic topic_of show_topic
execute_topic-changes other fd who params s =
    elim (Option-cases (find_channel (get_or params 0 []) s)) [
      | inl missing ↦ rw (missing, execute_topic) (grind (arith, find_channel-tell other fd))
      | inr (ch, e) ↦
          rw (e, execute_topic)
            (grind (
              arith,
              find_channel-tell other fd,
              find_channel-change_topic other fd who (get_or params 0 []) (get_or params 1 []) ch s,
            ))
    ]

find_channel-invite_guest :
    (other : Text) (fd : ℕ) (who : Client) (nick name : Text) (target : ℕ) (s : Server)
    → find_channel other (invite_guest fd who nick name target s)
      ≡ only name (add_invited target) s other
unfolding invite_guest
find_channel-invite_guest other fd who nick name target s =
    find_channel-tell other target _ _
    ∙ find_channel-tell other fd _ _
    ∙ find_channel-update_channel other name (add_invited target) s

find_channel-invite_to :
    (other : Text) (fd : ℕ) (who : Client) (nick name : Text) (target : ℕ) (ch : Channel)
    (s : Server)
    → find_client_by_nick nick s ≡ some target
    → find_channel name s ≡ some ch
    → find_channel other (invite_to fd who nick name target ch s)
      ≡ (elim (invite_target fd nick name s) [
        | none ↦ find_channel other s
        | some guest ↦ only name (add_invited guest) s other
      ])
unfolding invite_to
find_channel-invite_to other fd who nick name target ch s t e =
    rw (t, e, invite_to)
      (grind (
        arith,
        find_channel-tell other fd,
        find_channel-invite_guest other fd who nick name target s,
      ))

-- INVITE, by `addInvited`.
execute_invite-changes :
    (other : Text) (fd : ℕ) (who : Client) (params : List Text) (s : Server)
    → find_channel other (execute_invite fd who params s) ≡ (
        if ltb (length params) 2
        then find_channel other s
        else elim (invite_target fd (get_or params 0 []) (get_or params 1 []) s) [
          | none ↦ find_channel other s
          | some target ↦ only (get_or params 1 []) (add_invited target) s other
        ])
unfolding execute_invite
execute_invite-changes other fd who params s =
    let nick = get_or params 0 [] in
    let name = get_or params 1 [] in
    elim (Bool-cases (ltb (length params) 2)) [
      | inl few ↦ rw (few, execute_invite) (find_channel-tell other fd _ s)
      | inr enough ↦ elim (Option-cases (find_client_by_nick nick s)) [
        | inl gone ↦ rw (enough, gone, execute_invite) (find_channel-tell other fd _ s)
        | inr (target, t) ↦ elim (Option-cases (find_channel name s)) [
          | inl missing ↦ rw (enough, t, missing, execute_invite) (find_channel-tell other fd _ s)
          | inr (ch, e) ↦
              rw (enough, t, e, execute_invite)
                (rw (t, e) at (find_channel-invite_to other fd who nick name target ch s t e))
        ]
      ]
    ]

-- A change of the channel that has the same result.
only-same :
    (name other : Text) (f g : Channel → Channel) (s : Server)
    → ((ch : Channel) → find_channel name s ≡ some ch → f ch ≡ g ch)
    → only name f s other ≡ only name g s other
only-same name other f g s h = elim (Bool-cases (text_eq name other)) [
  | inr different ↦ rw different refl
  | inl same ↦
      rw (same, ← (text_eq_iff name other).0 same)
        (elim (Option-cases (find_channel name s)) [
          | inl missing ↦ rw missing refl
          | inr (ch, e) ↦ rw e (ap some (h ch e))
        ])
]

-- From a state with the invariant, after KICK of one nickname from one channel: if a client has the
-- nickname, is a member of the channel, and the sender is a member and an operator of it, then the
-- members and the operators of this channel are those before but this client, in their order, all
-- else of it is as it was, and no other channel has changed; otherwise no channel has.
pub find_channel-kick_one :
    (other : Text) (fd : ℕ) (who : Client) (name nick reason : Text) (s : Server)
    → Inv s
    → find_channel other (kick_one fd who name nick reason s) ≡ (elim (kick_target fd name nick s) [
      | none ↦ find_channel other s
      | some target ↦ only name (departed target) s other
    ])
find_channel-kick_one other fd who name nick reason s i =
    kick_one-changes other fd who name nick reason s
    ∙ (elim (Option-cases (kick_target fd name nick s)) [
      | inl nobody ↦ rw nobody refl
      | inr (target, t) ↦ rw t (
          only-same name other (remove_member target) (departed target) s
            (λ ch e. remove_member-departed target ch (found-WellFormed name s i e)))
    ])

-- After TOPIC: if it came with a name and a topic, and the sender may set it, then this is the topic
-- of the channel with this name, all else of it is as it was, and no other channel has changed;
-- otherwise no channel has.
pub find_channel-execute_topic :
    (other : Text) (fd : ℕ) (who : Client) (params : List Text) (s : Server)
    → find_channel other (execute_topic fd who params s) ≡ (
        if ltb 1 (length params) && may_retopic fd (get_or params 0 []) s
        then only (get_or params 0 []) (retopiced (get_or params 1 [])) s other
        else find_channel other s)
find_channel-execute_topic = execute_topic-changes

-- After INVITE: if it came with a nickname and the name of a channel, a client has the nickname and
-- is no member, and the sender is a member, and an operator if the channel is by invitation, then
-- this client is on the list of invitations of this channel (behind those who were, if it was not),
-- all else of it is as it was, and no other channel has changed; otherwise no channel has.
pub find_channel-execute_invite :
    (other : Text) (fd : ℕ) (who : Client) (params : List Text) (s : Server)
    → find_channel other (execute_invite fd who params s) ≡ (
        if ltb (length params) 2
        then find_channel other s
        else elim (invite_target fd (get_or params 0 []) (get_or params 1 []) s) [
          | none ↦ find_channel other s
          | some target ↦ only (get_or params 1 []) (invited target) s other
        ])
find_channel-execute_invite other fd who params s =
    let name = get_or params 1 [] in
    execute_invite-changes other fd who params s
    ∙ (elim (Option-cases (invite_target fd (get_or params 0 []) name s)) [
      | inl nobody ↦ rw nobody refl
      | inr (target, t) ↦
          rw
            (
              t,
              only-same name other (add_invited target) (invited target) s
                  (λ ch e. add_invited-invited target ch),
            )
            refl
    ])
