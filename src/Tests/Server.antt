-- ===== src/Tests/Server.antt =====
-- The theorems on the service of mcp-server/src/main.rs at concrete runs: a watch channel is a count of
-- what was sent and the last of it, and a receiver is a count that is no greater.
use mcp_server_allenheath_dl.Prelude.{
  ℕ, suc, ◌≤◌, inl, inr, ◌≡◌, refl, Bool, true, false, List, [], ◌∷◌, none, some, All, ok, err, map,
  if◌then◌else◌, ltb, length, arith, receive_failed,
}
use mcp_server_allenheath_dl.Text.{codes}
use mcp_server_allenheath_dl.Args.Config.{ChannelConfig, load}
use mcp_server_allenheath_dl.Args.Ranges.{iter_all}
use mcp_server_allenheath_dl.Auth.{Parts, guard}
use mcp_server_allenheath_dl.Auth.Guard.{Permits}
use mcp_server_allenheath_dl.Handler.{list_inputs, details}
use mcp_server_allenheath_dl.Handler.Tools.{list_inputs_request, run_tool}
use mcp_server_allenheath_dl.Server.{Args, channel_config, WatchSender, IsWatchSender}
use mcp_server_allenheath_dl.Server.Sessions.{
  WatchReceivers, watch_at, Event, opened, called, hangup, serve, main,
}
use mcp_server_allenheath_dl.Server.Guarded.{done, both, left_out, serve-left_out}
use mcp_server_allenheath_dl.Server.InForce.{AreReceivers, Lists, in_force, serve-Lists}
use mcp_server_allenheath_dl.Notify.{sets_of, changes, message, no_changes}
use mcp_server_allenheath_dl.Notify.Tracked.{peer}
use mcp_server_allenheath_dl.Server.Notifier
use mcp_server_allenheath_dl.Server.Notifier.{sent, polled, on_initialized}
use mcp_server_allenheath_dl.Server.Told.{StaysOpen, Told, IsUpToDate, run-Told}
use mcp_server_allenheath_dl.Tests.Auth.{small_http, asked}
use mcp_server_allenheath_dl.Tests.Notify.{one_range, moved, file_of_moved}
use mcp_server_allenheath_dl.Tests.Handler.{one_level, one_level_full, whole, at_zero, name_for}

abbrev counted : WatchSender
counted = record {
  Sender = Bool × ℕ × ChannelConfig;
  channel = λ c. (true, 0, c);
  send_replace = λ c tx. (true, suc tx.1, c);
  value = λ tx. tx.2;
}

counted-IsWatchSender : IsWatchSender counted
counted-IsWatchSender = record { value-channel = λ c. refl; value-send_replace = λ c tx. refl }

abbrev counts : WatchReceivers counted
counts = record {
  Receiver = λ tx. (n : ℕ) × (n ≤ tx.1);
  receiver = λ c. (0, omega arith);
  carried = λ c tx rx. (rx.0, omega (arith, rx.1));
  dropped = λ tx. (false, tx.1, tx.2);
  outliving = λ tx rx. rx;
  has_changed = λ tx rx. if tx.0 then ok (ltb rx.0 tx.1) else err receive_failed;
  mark_unchanged = λ tx rx. (tx.1, omega arith);
}

counts-AreReceivers : AreReceivers counts
counts-AreReceivers = record {
  sent = λ c tx rx. ground (arith, rx.1);
  marked = λ tx. record { marked = λ rx. ground arith; borrow-marked = λ rx. refl };
  value-dropped = λ tx. refl;
}

abbrev IsOpen : Bool × ℕ × ChannelConfig → Type 0
IsOpen tx = tx.0 ≡ true

counts-StaysOpen : StaysOpen counts IsOpen
counts-StaysOpen = record {
  has_changed = λ tx rx is_open. (ltb rx.0 tx.1, rw is_open refl);
  send_replace = λ c tx is_open. refl;
}

abbrev guarded_args : Args
guarded_args = record {
  token = some (codes "s3cret");
  ip = 0;
  inputs = one_range.inputs;
  mixes = one_range.mixes;
}

abbrev nobody : Parts small_http
nobody = record { uri = none; headers = none }

abbrev Events : Type 0
Events = List (Event counts small_http one_level whole)

-- A session asks for its inputs before and after a signal; someone without the token does too.
abbrev visits : Events
visits =
    opened asked at_zero
    ∷ called asked 0 list_inputs_request
    ∷ hangup (ok file_of_moved)
    ∷ called nobody 0 list_inputs_request
    ∷ []

abbrev own_visits : Events
own_visits =
    opened asked at_zero ∷ called asked 0 list_inputs_request ∷ hangup (ok file_of_moved) ∷ []

moved-in_force :
    in_force counts small_http one_level whole true (channel_config guarded_args) visits ≡ moved
unfolding load
moved-in_force = refl

serve-Lists_example :
    All
      (Lists counts small_http one_level whole
        (in_force counts small_http one_level whole true (channel_config guarded_args) visits)
        (serve counts small_http one_level whole guarded_args visits
          (main counts small_http one_level whole guarded_args (ok tt))).tx)
      (serve counts small_http one_level whole guarded_args visits
        (main counts small_http one_level whole guarded_args (ok tt))).sessions
serve-Lists_example =
    serve-Lists counted-IsWatchSender counts counts-AreReceivers small_http one_level whole
      one_level_full guarded_args (ok tt) visits

-- The session is there, and lists the new inputs.
one_session :
    map
      (λ session. (list_inputs (watch_at counts _) one_level session).0)
      (serve counts small_http one_level whole guarded_args visits
        (main counts small_http one_level whole guarded_args (ok tt))).sessions
    ≡ ok (details (iter_all moved.inputs) (map name_for (iter_all moved.inputs))) ∷ []
unfolding serve list_inputs load guard run_tool
one_session = refl

nobody-refused : ¬ Permits small_http nobody (some (codes "s3cret"))
nobody-refused h = elim h [ inl e ↦ cc | inr (_, (value, found, _)) ↦ cc ]

serve-left_out_example :
    serve counts small_http one_level whole guarded_args visits
      (main counts small_http one_level whole guarded_args (ok tt))
    ≡ serve counts small_http one_level whole guarded_args own_visits
        (main counts small_http one_level whole guarded_args (ok tt))
serve-left_out_example =
    serve-left_out counts small_http one_level whole guarded_args visits own_visits
      (main counts small_http one_level whole guarded_args (ok tt))
      (both _ (both _ (both _ (left_out _ nobody-refused done))))

-- A peer that is gone after three messages.
abbrev three_messages : List (List ℕ) → Bool
three_messages told = ltb (length told) 3

-- The inputs move, and move back before the task runs.
abbrev back_and_forth : List Notifier.Event
back_and_forth = sent moved ∷ sent one_range ∷ polled ∷ sent moved ∷ []

run-Told_example :
    Told counted-IsWatchSender counts counts-AreReceivers IsOpen counts-StaysOpen three_messages
      (sets_of one_range)
      (Notifier.step counts (peer three_messages) polled (
        Notifier.run counts (peer three_messages) back_and_forth (
          on_initialized counts
            (peer three_messages)
            (counted.channel one_range)
            (counts.receiver one_range)
            [])))
    × IsUpToDate counted-IsWatchSender counts counts-AreReceivers IsOpen counts-StaysOpen
        three_messages moved
        (Notifier.step counts (peer three_messages) polled (
          Notifier.run counts (peer three_messages) back_and_forth (
            on_initialized counts
              (peer three_messages)
              (counted.channel one_range)
              (counts.receiver one_range)
              [])))
run-Told_example =
    run-Told counted-IsWatchSender counts counts-AreReceivers IsOpen counts-StaysOpen three_messages
      (counted.channel one_range) (counts.receiver one_range) back_and_forth refl

-- It is told of no changes, and then of those.
twice_told :
    (Notifier.step counts (peer three_messages) polled (
      Notifier.run counts (peer three_messages) back_and_forth (
        on_initialized counts
          (peer three_messages)
          (counted.channel one_range)
          (counts.receiver one_range)
          []))).peer
    ≡ no_changes
      ∷ codes "Channel config reloaded: inputs added: Ip5, Ip6; inputs removed: Ip1, Ip2"
      ∷ []
unfolding Notifier.run message changes sets_of iter_all
twice_told = refl
