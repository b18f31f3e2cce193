-- ===== src/Tests/Services.antt =====
-- The program from its arguments on, and the loop, at fixed inputs.
use irc.Base.{◌≡◌, refl, true, false, Option, List, [], ◌∷◌, some, arith}
use irc.Text.{Text, codes}
use irc.Map.{lookup}
use irc.Arguments.{parse_port, is_valid_password}
use irc.Loop.{connection, bytes}
use irc.Loop.Events.{Poll, incoming, listen_error, ready, poll_interrupted, reports, run}
use irc.Loop.Invariant.Round.{InvOrEnded}
use irc.Loop.Poll.{PollOk}
use irc.Loop.Poll.Survival.{GoesOn, is_calm, is_calm_run, run-GoesOn}
use irc.Loop.Quota.{WithinQuota}
use irc.Loop.Quota.Rounds.{QuotaOrEnded, run-QuotaOrEnded}
use irc.Startup.{serve, main_status}
use irc.Startup.Service.{all_signals, all_sockets, serve-InvOrEnded, main_status-zero}
use irc.Descriptors.{no_sockets, main_trace}
use irc.Descriptors.Exit.{is_fresh_main, left-main_trace}
use irc.Tests.States.{empty_server, empty_server-Inv}

abbrev short_session : List Poll
short_session =
    reports (incoming (connection 4 true (some (codes "10.0.0.1"))) ∷ []) ∷ poll_interrupted ∷ []

empty_server-PollOk : PollOk empty_server
unfolding irc.Map.Laws.has lookup
empty_server-PollOk = record {
  all_known = (refl, tt);
  distinct = (refl, tt);
  listening = refl;
  no_client = refl;
}

calm_session : is_calm_run short_session empty_server ≡ true
unfolding irc.Loop.refresh_poll_events irc.Loop.refresh_entries is_calm is_calm_run
    irc.Loop.Events.handle_event irc.Loop.Events.turn irc.Loop.Events.round
    irc.Loop.Events.handle_events irc.Loop.reap_dead_clients irc.Loop.disconnect_all
    irc.Loop.dead_fds irc.Loop.finish_all irc.Loop.accept_new_client irc.Loop.admit_client
    irc.Server.count_from_ip irc.Loop.register_client irc.Client.new_client irc.Map.insert
    irc.Loop.finish_closing lookup
calm_session = refl

run-GoesOn_example : GoesOn (run short_session empty_server)
run-GoesOn_example =
    run-GoesOn short_session empty_server calm_session empty_server-Inv empty_server-PollOk

quota_start : WithinQuota empty_server
unfolding irc.Server.count_from_ip
quota_start = record { total = ground arith; per_ip = λ ip. ground arith }

run-QuotaOrEnded_example : QuotaOrEnded (run short_session empty_server)
run-QuotaOrEnded_example = run-QuotaOrEnded short_session empty_server empty_server-Inv quota_start

serve-InvOrEnded_example :
    InvOrEnded (
      serve all_signals
        (all_sockets 3)
        short_session
        (some (some (codes "ircserv") ∷ some (codes "6667") ∷ some (codes "secret") ∷ [])))
    × QuotaOrEnded (
        serve all_signals
          (all_sockets 3)
          short_session
          (some (some (codes "ircserv") ∷ some (codes "6667") ∷ some (codes "secret") ∷ [])))
serve-InvOrEnded_example =
    serve-InvOrEnded all_signals (all_sockets 3) short_session
      (some (some (codes "ircserv") ∷ some (codes "6667") ∷ some (codes "secret") ∷ []))

main_status-zero_example :
    main_status all_signals
      (all_sockets 3)
      short_session
      (some (some (codes "ircserv") ∷ some (codes "6667") ∷ some (codes "secret") ∷ []))
    ≡ 0
unfolding parse_port irc.Arguments.read_long is_valid_password irc.Text.find_byte
    irc.Text.Decimal.is_digit irc.Text.Decimal.digits_value
main_status-zero_example =
    main_status-zero 3 short_session (codes "ircserv") (codes "6667") (codes "secret") 6667 refl
      refl calm_session

abbrev arguments : Option (List (Option Text))
arguments = some (some (codes "ircserv") ∷ some (codes "6667") ∷ some (codes "secret") ∷ [])

-- One client is accepted, a connection is rejected, and the listening socket fails.
abbrev failing_session : List Poll
failing_session =
    reports (incoming (connection 4 true (some (codes "10.0.0.1"))) ∷ [])
    ∷ reports (incoming (connection 5 false (some (codes "10.0.0.1"))) ∷ listen_error ∷ [])
    ∷ []

fresh_session : is_fresh_main (all_sockets 3) failing_session arguments ≡ true
unfolding is_fresh_main irc.Descriptors.Running.is_fresh_run irc.Descriptors.Running.is_fresh
    irc.Startup.read_server_arguments irc.Startup.new_server irc.Startup.setup_socket parse_port
    irc.Arguments.read_long is_valid_password irc.Text.find_byte irc.Text.Decimal.is_digit
    irc.Text.Decimal.digits_value irc.Descriptors.traced_turn irc.Descriptors.traced_round
    irc.Descriptors.traced_events irc.Descriptors.traced_event irc.Descriptors.traced_accept
    irc.Descriptors.traced_connection irc.Descriptors.traced_admit irc.Descriptors.traced_register
    irc.Descriptors.traced_reap irc.Descriptors.traced_disconnect_all irc.Descriptors.close_socket
    irc.Loop.refresh_poll_events irc.Loop.refresh_entries irc.Loop.finish_all
    irc.Loop.finish_closing irc.Loop.dead_fds irc.Loop.register_client irc.Client.new_client
    irc.Map.insert irc.Server.count_from_ip lookup
fresh_session = refl

left-main_trace_example :
    (main_trace all_signals (all_sockets 3) failing_session arguments).left ≡ no_sockets
left-main_trace_example =
    left-main_trace all_signals (all_sockets 3) failing_session arguments fresh_session
