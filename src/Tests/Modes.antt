-- ===== src/Tests/Modes.antt =====
-- MODE at fixed inputs.
use irc.Base.{◌≡◌, refl, true, false, [], ◌∷◌, ◌++◌, some, map, arith}
use irc.Text.{codes, text_key}
use irc.Map.{lookup}
use irc.Channel.{Channel}
use irc.Server.{Server, line, find_channel}
use irc.Command.Mode.{execute_mode, mode_arguments}
use irc.Command.Mode.Changes.{parameter}
use irc.Command.Mode.Meaning.{settings}
use irc.Command.Mode.Meaning.Changed.{Changed}
use irc.Command.Mode.Meaning.Loop.{granted, execute_mode-Changed}
use irc.Command.Mode.Meaning.Shown.{copy_modes, shown_key, shown_limit, settings-copy_modes}
use irc.Tests.States.{alice, lobby, party}

lobby_there : find_channel (codes "#lobby") party ≡ some lobby
unfolding lookup irc.Text.text_eq
lobby_there = refl

execute_mode-Changed_example :
    Changed
      (codes "#lobby")
      (granted 4 (codes "#lobby") lobby (codes "+ik-tl") (codes "key" ∷ []))
      lobby
      party
      (execute_mode 4 alice (codes "#lobby" ∷ codes "+ik-tl" ∷ codes "key" ∷ []) party)
execute_mode-Changed_example =
    execute_mode-Changed 4 alice (codes "#lobby") (codes "+ik-tl") (codes "key" ∷ []) lobby party
      lobby_there

-- A channel without modes, and one with all of them.
abbrev hall : Channel
hall = record lobby { topic_restricted = false }

abbrev vault : Channel
vault = record lobby { is_invite_only = true; password = codes "key"; user_limit = 10 }

abbrev in_hall : Server
in_hall = record party { channels = (codes "#lobby", hall) ∷ [] }

hall_there : find_channel (codes "#lobby") in_hall ≡ some hall
unfolding lookup irc.Text.text_eq
hall_there = refl

settings-copy_modes_example :
    (mode_arguments vault ≡ line (map parameter (shown_key vault ++ shown_limit vault)))
    × (now : Channel) × (find_channel
          (codes "#lobby")
          (execute_mode 4 alice (copy_modes (codes "#lobby") vault) in_hall)
        ≡ some now)
    × (settings now ≡ settings vault)
settings-copy_modes_example =
    settings-copy_modes 4 alice (codes "#lobby") hall vault in_hall hall_there refl refl refl refl
      (ground arith)
