-- ===== src/Command/Effects/Leave.antt =====
-- src/commands/Join.cpp: what `JOIN 0` does to the channels.
use mathlib.Core.Option
use irc.Base.{
  ℕ, ◌≡◌, sym, ap, ◌∙◌, true, false, List, [], ◌∷◌, Option, none, some, arith, ◌==◌, if◌then◌else◌,
  Option-cases, Bool-cases, inl, inr,
}
use irc.Text.{Text, text_eq, text_eq_iff, int_key, text_key}
use irc.Map.{Map, lookup}
use irc.Policy.Invariant.Members.{ChannelOk}
use irc.Map.Laws.{has, has-lookup, lookup-erase, lookup-Entries}
use irc.Client.{Client}
use irc.Channel.{Channel, is_member, remove_member, get_members_count}
use irc.Channel.Invariant.{WellFormed, is_member-remove_member, remove_member-WellFormed}
use irc.Server.{Server, find_channel, remove_channel, update_channel}
use irc.Policy.Invariant.All.{Inv}
use irc.Command.Join.{drop_member, leave_channel, leave_all, execute_join}
use irc.Command.Effects.{find_channel-tell-broadcast, find_channel-update_channel}

-- Every channel that is found is well formed and has the name under which it is found.
abbrev Sound : Server → Type 0
Sound s =
    (name : Text) (ch : Channel) → find_channel name s ≡ some ch → WellFormed ch × (ch.name ≡ name)

name-remove_member : (fd : ℕ) (ch : Channel) → (remove_member fd ch).name ≡ ch.name
unfolding remove_member
name-remove_member fd ch = ground arith

find_channel-drop_member :
    (other : Text) (fd : ℕ) (key : Text) (ch : Channel) (s : Server)
    → ch.name ≡ key
    → find_channel other (drop_member fd key ch s) ≡ (
        if text_eq key other
        then (if get_members_count (remove_member fd ch) == 0
            then none
            else Option.map (remove_member fd) (find_channel other s))
        else find_channel other s)
unfolding drop_member remove_channel
find_channel-drop_member other fd key ch s e = ground (
  arith,
  e,
  find_channel-update_channel other key (remove_member fd) s,
  lookup-erase other key (update_channel key (remove_member fd) s).channels,
)

find_channel-leave_channel :
    (other : Text) (fd : ℕ) (who : Client) (key : Text) (ch : Channel) (s : Server)
    → ch.name ≡ key
    → find_channel other (leave_channel fd who key ch s) ≡ (
        if text_eq key other
        then (if get_members_count (remove_member fd ch) == 0
            then none
            else Option.map (remove_member fd) (find_channel other s))
        else find_channel other s)
unfolding leave_channel
find_channel-leave_channel other fd who key ch s e =
    find_channel-drop_member other fd key ch _ e
    ∙ ap
        (λ (o : Option Channel).
          if text_eq key other
          then (if get_members_count (remove_member fd ch) == 0
              then none
              else Option.map (remove_member fd) o)
          else o)
        (find_channel-tell-broadcast other fd _ ch.members _ (some fd) s)

-- One round of the loop.
leave_one : ℕ → Client → Text → Server → Server
leave_one fd who key s = elim (find_channel key s) [
  | none ↦ s
  | some ch ↦ if is_member fd ch then leave_channel fd who key ch s else s
]

-- A channel that is found after it: it is sound, and if the client is a member, it is not the one
-- of this round, and was there before.
Kept : ℕ → Text → Text → Channel → Server → Type 0
Kept fd key name ch s =
    WellFormed ch
    × (ch.name ≡ name)
    × (is_member fd ch ≡ true → (find_channel name s ≡ some ch) × (text_eq key name ≡ false))

untouched :
    (fd : ℕ) (key name : Text) (ch : Channel) (s : Server)
    → Sound s
    → find_channel name s ≡ some ch
    → ((old : Channel) → find_channel key s ≡ some old → is_member fd old ≡ false)
    → Kept fd key name ch s
unfolding Kept
untouched fd key name ch s sound e stranger = (
  (sound name ch e).0,
  (sound name ch e).1,
  λ m. (
    e,
    elim (Bool-cases (text_eq key name)) [
      | inl same ↦
          let k : name ≡ key = sym ((text_eq_iff key name).0 same) in
          absurd (let f = stranger ch (rw k at e) in cc)
      | inr different ↦ different
    ],
  ),
)

left :
    (fd : ℕ) (who : Client) (key name : Text) (old ch : Channel) (s : Server)
    → Sound s
    → find_channel key s ≡ some old
    → find_channel name (leave_channel fd who key old s) ≡ some ch
    → Kept fd key name ch s
unfolding Kept
left fd who key name old ch s sound there e =
    let f = find_channel-leave_channel name fd who key old s (sound key old there).1 in
    elim (Bool-cases (text_eq key name)) [
      | inr different ↦
          let before : find_channel name s ≡ some ch = ground (arith, f, e, different) in
          ((sound name ch before).0, (sound name ch before).1, λ m. (before, different))
      | inl same ↦
          let k : name ≡ key = sym ((text_eq_iff key name).0 same) in
          let there' : find_channel name s ≡ some old = rw k there in
          let (w, n) = sound name old there' in
          let rest : remove_member fd old ≡ ch = ground (arith, f, e, same, there') in
          (
            rw (← rest) (remove_member-WellFormed fd old w),
            rw (← rest) (name-remove_member fd old ∙ n),
            λ m. absurd (ground (arith, (rw (← rest) at m), is_member-remove_member fd fd old w)),
          )
    ]

leave_one-Kept :
    (fd : ℕ) (who : Client) (key name : Text) (ch : Channel) (s : Server)
    → Sound s
    → find_channel name (leave_one fd who key s) ≡ some ch
    → Kept fd key name ch s
unfolding leave_one
leave_one-Kept fd who key name ch s sound e = elim (Option-cases (find_channel key s)) [
  | inl missing ↦ untouched fd key name ch s sound (rw (missing, leave_one) at e) (λ old o. cc)
  | inr (old, there) ↦ elim (Bool-cases (is_member fd old)) [
    | inl inside ↦ left fd who key name old ch s sound there (rw (there, leave_one, inside) at e)
    | inr outside ↦
        untouched fd key name ch s sound (rw (there, leave_one, outside) at e)
          (λ other o. ground (arith, o, there, outside))
  ]
]

leave_all-no_member :
    (fd : ℕ) (who : Client) (chs : Map Text Channel) (s : Server)
    → Sound s
    → ((name : Text) (ch : Channel)
        → find_channel name s ≡ some ch
        → is_member fd ch ≡ true
        → has name chs ≡ true)
    → (name : Text) (ch : Channel) → find_channel name (leave_all fd who chs s) ≡ some ch
    → is_member fd ch ≡ false
unfolding leave_all has lookup leave_one Kept
leave_all-no_member fd who [] s sound cover name ch e = elim (Bool-cases (is_member fd ch)) [
  | inl inside ↦ absurd (let h = cover name ch e inside in cc)
  | inr outside ↦ outside
]
leave_all-no_member fd who ((key, old) ∷ chs) s sound cover name ch e =
    let t = leave_one fd who key s in
    leave_all-no_member fd who chs t
      (λ n c f. let k = leave_one-Kept fd who key n c s sound f in (k.0, k.1))
      (λ n c f m.
        let (there, other) = (leave_one-Kept fd who key n c s sound f).2 m in
        ground (arith, cover n c there m, other))
      name ch e

Inv-Sound : (s : Server) → Inv s → Sound s
Inv-Sound s i name ch e = (
  (lookup-Entries (λ _ c. ChannelOk s.clients c) name s.channels i.channels_ok e).well_formed,
  lookup-Entries (λ n c. c.name ≡ n) name s.channels i.named e,
)

-- From a state with the invariant: after `JOIN 0` the client is a member of no channel that is left.
pub execute_join-no_member :
    (fd : ℕ) (who : Client) (rest : List Text) (s : Server) (name : Text) (ch : Channel)
    → Inv s
    → find_channel name (execute_join fd who ((b'0' ∷ []) ∷ rest) s) ≡ some ch
    → is_member fd ch ≡ false
unfolding execute_join text_eq
execute_join-no_member fd who rest s name ch i e =
    leave_all-no_member fd who s.channels s (Inv-Sound s i)
      (λ n c there m. has-lookup n s.channels there) name ch e
