-- ===== src/Tests/Sessions.antt =====
-- The server: commands, deliveries, and rounds of the event loop.
use irc.Base.{
  ◌≡◌, refl, true, false, not, ◌&&◌, [], ◌∷◌, some, none, arith, contains, if◌then◌else◌,
}
use mathlib.Core.Option
use irc.Text.{codes, int_key, text_key}
use irc.Map.{lookup}
use irc.Parser.{parse}
use irc.Client.{Client, send_message}
use irc.Server.{Server, broadcast, is_sender}
use irc.Server.Delivery.{lookup-broadcast}
use irc.Command.Dispatch.{process_line}
use irc.Command.Mode.{execute_mode}
use irc.Policy.{Acts}
use irc.Policy.Refine.Dispatch.{process_line-Acts}
use irc.Command.Mode.Outsider.{Untouched, execute_mode-Untouched}
use irc.Policy.Invariant.All.{Inv, process_line-Inv}
use irc.Map.Laws.{Entries}
use irc.Command.Pass.{execute_pass}
use irc.Command.Pass.Lockout.{Counted, execute_pass-Counted}
use irc.Loop.Departure.{Stranger, disconnect_client-Stranger}
use irc.Loop.{disconnect_client, connection, bytes, took, receive_bytes}
use irc.Loop.Drain.{Drained, receive_bytes-Drained}
use irc.Loop.Events.{incoming, ready, poll_interrupted, reports, run}
use irc.Loop.Invariant.Round.{InvOrEnded, run-InvOrEnded}
use irc.Tests.States.{
  user_at, alice, bob, party, empty_server, empty_server-Inv, party-Inv, lobby-WellFormed,
}

-- A client that has sent two wrong passwords.
abbrev newcomer : Client
newcomer = record (user_at 6 [] []) {
  pass_ok = false;
  nick_set = false;
  user_set = false;
  failed_pass_attempts = 2;
}

abbrev gate : Server
gate = record empty_server { clients = (6, newcomer) ∷ [] }

process_line-Acts_example :
    Acts 4 alice
      (parse (codes "KICK #lobby bob :bye")).params
      party
      party
      (process_line 4 (codes "KICK #lobby bob :bye") party)
unfolding lookup
process_line-Acts_example =
    process_line-Acts 4 alice (codes "KICK #lobby bob :bye") party refl party-Inv.named

process_line-Inv_example : Inv (process_line 5 (codes "NICK Carol") party)
process_line-Inv_example = process_line-Inv 5 (codes "NICK Carol") party party-Inv

run-InvOrEnded_example : InvOrEnded (
    run
      (reports (incoming (connection 4 true (some (codes "10.0.0.1"))) ∷ [])
        ∷ poll_interrupted
        ∷ reports (ready 4 (some (bytes (codes "PASS secret\r\nNICK a\r\n"))) none false ∷ [])
        ∷ reports (ready 4 none (some (took 4)) true ∷ [])
        ∷ [])
      empty_server)
run-InvOrEnded_example =
    run-InvOrEnded
      (reports (incoming (connection 4 true (some (codes "10.0.0.1"))) ∷ [])
        ∷ poll_interrupted
        ∷ reports (ready 4 (some (bytes (codes "PASS secret\r\nNICK a\r\n"))) none false ∷ [])
        ∷ reports (ready 4 none (some (took 4)) true ∷ [])
        ∷ [])
      empty_server empty_server-Inv

receive_bytes-Drained_example : Drained 4 (receive_bytes 4 (codes "JOIN #a\r\n") alice party)
unfolding lookup
receive_bytes-Drained_example =
    receive_bytes-Drained 4 (codes "JOIN #a\r\n") alice party party-Inv refl

execute_mode-Untouched_example :
    Untouched 5 party (execute_mode 5 bob (codes "#lobby" ∷ codes "+i" ∷ []) party)
unfolding lookup irc.Text.text_eq
execute_mode-Untouched_example =
    execute_mode-Untouched 5 bob (codes "#lobby" ∷ codes "+i" ∷ []) party refl

disconnect_client-Stranger_example :
    (lookup 4 (disconnect_client 4 party).clients ≡ none)
    × Entries (λ _ ch. Stranger 4 ch) (disconnect_client 4 party).channels
unfolding lookup
disconnect_client-Stranger_example = disconnect_client-Stranger 4 party alice refl party-Inv

execute_pass-Counted_example :
    (c : Client) × (lookup 6 (execute_pass 6 newcomer (codes "guess" ∷ []) gate).clients ≡ some c)
    × Counted newcomer c
unfolding lookup
execute_pass-Counted_example =
    execute_pass-Counted 6 newcomer (codes "guess" ∷ []) gate refl refl refl refl
      (λ e. ground arith) (ground arith)

lookup-broadcast_example :
    lookup 5 (broadcast (4 ∷ 5 ∷ []) (codes "HI\r\n") (some 4) party).clients ≡ (
      if contains 5 (4 ∷ 5 ∷ []) && not (is_sender 5 (some 4))
      then Option.map (send_message (codes "HI\r\n")) (lookup 5 party.clients)
      else lookup 5 party.clients)
lookup-broadcast_example =
    lookup-broadcast (4 ∷ 5 ∷ []) (codes "HI\r\n") (some 4) party 5
      lobby-WellFormed.members_distinct
