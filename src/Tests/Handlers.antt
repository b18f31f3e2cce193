-- ===== src/Tests/Handlers.antt =====
-- What commands and removals do at fixed inputs.
use mathlib.Core.Option
use irc.Base.{
  ap, ◌==◌, true, false, arith, ◌≡◌, refl, not, ◌&&◌, [], ◌∷◌, none, some, length, get_or, ltb,
  if◌then◌else◌,
}
use irc.Text.{codes, text_eq, int_key, text_key}
use irc.Map.{lookup}
use irc.Map.Laws.{has}
use irc.Client.{send_message}
use irc.Channel.{remove_member}
use irc.Server.{find_channel}
use irc.Command.Join.{join_one, is_valid_channel_name}
use irc.Command.Kick.{kick_one}
use irc.Command.Topic.{execute_topic}
use irc.Command.Invite.{execute_invite}
use irc.Command.Privmsg.{message_one, full_message}
use irc.Command.Effects.Results.{opened, entered, departed, invited, retopiced}
use irc.Command.Effects.Join.{admits, find_channel-join_one}
use irc.Command.Effects.Moderate.{
  kick_target, may_retopic, invite_target, only, find_channel-kick_one, find_channel-execute_topic,
  find_channel-execute_invite,
}
use irc.Command.Effects.Message.{receives, lookup-message_one}
use irc.Loop.{reap_dead_clients}
use irc.Client.{Client}
use irc.Server.{Server, update_client}
use irc.Loop.Kept.{KeptBounded, update_client-Inv}
use irc.Loop.Farewell.{flush, has-flush}
use irc.Command.Nick.{execute_nick}
use irc.Command.Effects.Nick.{nickname_at, accepts_nick, nickname_at-execute_nick}
use irc.Channel.{is_member}
use irc.Command.Join.{execute_join, leave_all, leave_channel, drop_member}
use irc.Command.Effects.Leave.{execute_join-no_member}
use irc.Loop.Removal.{is_finished, has-reap_dead_clients}
use irc.Tests.States.{alice, bob, lobby, party, party-Inv}

find_channel-join_one_example :
    find_channel (codes "#new") (join_one 5 bob (codes "#new") [] party) ≡ (
      if is_valid_channel_name (codes "#new") && text_eq (codes "#new") (codes "#new")
      then elim (find_channel (codes "#new") party) [
        | none ↦ some (opened 5 (codes "#new"))
        | some ch ↦ some (if admits 5 [] ch then entered 5 ch else ch)
      ]
      else find_channel (codes "#new") party)
find_channel-join_one_example =
    find_channel-join_one (codes "#new") 5 bob (codes "#new") [] party party-Inv

find_channel-kick_one_example :
    find_channel
      (codes "#lobby")
      (kick_one 4 alice (codes "#lobby") (codes "bob") (codes "bye") party)
    ≡ (elim (kick_target 4 (codes "#lobby") (codes "bob") party) [
      | none ↦ find_channel (codes "#lobby") party
      | some target ↦ only (codes "#lobby") (departed target) party (codes "#lobby")
    ])
find_channel-kick_one_example =
    find_channel-kick_one (codes "#lobby") 4 alice (codes "#lobby") (codes "bob") (codes "bye")
      party party-Inv

find_channel-execute_topic_example :
    find_channel (codes "#lobby") (execute_topic 4 alice (codes "#lobby" ∷ codes "tea" ∷ []) party)
    ≡ (if ltb 1 (length (codes "#lobby" ∷ codes "tea" ∷ []))
          && may_retopic 4 (get_or (codes "#lobby" ∷ codes "tea" ∷ []) 0 []) party
        then only
            (get_or (codes "#lobby" ∷ codes "tea" ∷ []) 0 [])
            (retopiced (get_or (codes "#lobby" ∷ codes "tea" ∷ []) 1 []))
            party
            (codes "#lobby")
        else find_channel (codes "#lobby") party)
find_channel-execute_topic_example =
    find_channel-execute_topic (codes "#lobby") 4 alice (codes "#lobby" ∷ codes "tea" ∷ []) party

find_channel-execute_invite_example :
    find_channel (codes "#lobby") (execute_invite 4 alice (codes "bob" ∷ codes "#lobby" ∷ []) party)
    ≡ (if ltb (length (codes "bob" ∷ codes "#lobby" ∷ [])) 2
        then find_channel (codes "#lobby") party
        else elim (invite_target 4
            (get_or (codes "bob" ∷ codes "#lobby" ∷ []) 0 [])
            (get_or (codes "bob" ∷ codes "#lobby" ∷ []) 1 [])
            party) [
              | none ↦ find_channel (codes "#lobby") party
              | some target ↦
                  only
                    (get_or (codes "bob" ∷ codes "#lobby" ∷ []) 1 [])
                    (invited target)
                    party
                    (codes "#lobby")
            ])
find_channel-execute_invite_example =
    find_channel-execute_invite (codes "#lobby") 4 alice (codes "bob" ∷ codes "#lobby" ∷ []) party

lookup-message_one_example :
    lookup 5 (message_one 4 alice (codes "hi") (codes "#lobby") party).clients ≡ (
      if receives 4 (codes "#lobby") party 5
      then Option.map
          (send_message (full_message alice (codes "#lobby") (codes "hi")))
          (lookup 5 party.clients)
      else lookup 5 party.clients)
lookup-message_one_example =
    lookup-message_one 4 alice (codes "hi") (codes "#lobby") party 5 party-Inv refl

has-reap_dead_clients_example : has 4 (reap_dead_clients party).clients ≡ not (is_finished alice)
unfolding lookup
has-reap_dead_clients_example = has-reap_dead_clients 4 alice party party-Inv refl

abbrev leaving : Client → Client
leaving c = record c { closing = true; send_buffer = codes "HI\r\n" }

leaving_kept : (c : Client) → KeptBounded c (leaving c)
leaving_kept c = record { kept = ground arith; sends = λ h. ground arith; receives = λ h. h }

abbrev late_party : Server
late_party = update_client 5 leaving party

has-flush_example :
    has 5 (reap_dead_clients (flush (0 ∷ 7 ∷ 0 ∷ 0 ∷ []) 5 late_party)).clients ≡ false
unfolding lookup update_client irc.Map.modify
has-flush_example =
    has-flush (0 ∷ 7 ∷ 0 ∷ 0 ∷ []) 5 late_party (leaving bob)
      (update_client-Inv 5 leaving party leaving_kept party-Inv) refl refl refl (ground arith)

nickname_at-execute_nick_example : nickname_at 5 (execute_nick 5 bob (codes "Carol" ∷ []) party) ≡ (
    if accepts_nick 5 (codes "Carol" ∷ []) party && 5 == 5
    then Option.map (λ (c : Client). get_or (codes "Carol" ∷ []) 0 []) (lookup 5 party.clients)
    else nickname_at 5 party)
nickname_at-execute_nick_example =
    nickname_at-execute_nick 5 5 bob (codes "Carol" ∷ []) party party-Inv

after_departure :
    (leave_all 5 bob party.channels party).channels ≡ (codes "#lobby", remove_member 5 lobby) ∷ []
unfolding lookup text_eq irc.Server.broadcast irc.Server.tell update_client irc.Map.modify leave_all
    leave_channel drop_member irc.Server.update_channel remove_member
after_departure = refl

execute_join-no_member_example : is_member 5 (remove_member 5 lobby) ≡ false
unfolding lookup text_eq execute_join
execute_join-no_member_example =
    execute_join-no_member 5 bob [] party (codes "#lobby") (remove_member 5 lobby) party-Inv
      (ap (lookup (codes "#lobby")) after_departure)
