-- ===== src/Tests/Reactors.antt =====
-- The poller, the channels of a loop, threads and log statements: concrete runs.
use shero.Common.{◌↔◌, ℕ, ◌≡◌, refl, true, Option, none, some, List, [], ◌∷◌, ◌++◌, arith, map}
use shero.Common.Bytes.{Bytes, codes}
use shero.Net.Channel.{Channel, ChannelStatus, new_channel, add_listen_events}
use shero.Net.Poller.{epoll_event_size, update_channel, update_in, in_map}
use shero.Net.Poller.Waits.{polls, with_events, events_of, polls_lem}
use shero.Net.EventLoop.Reactor.{
  Reactor, put, new_reactor, control, add_read, del_all, change, update, remove, Step, Reach, here,
  next,
}
use shero.Net.EventLoop.Reactor.Refines.{IsMirrored}
use shero.Net.EventLoop.Reactor.Rounds.{Removable, is_some, Reach-IsMirrored, update-remove}
use shero.Base.Thread.{Thread, thread, started, calling, new_thread}
use shero.Base.Thread as Thread
use shero.Base.Thread.Started.{InStep, Reach-InStep}
use shero.Base.Log.{LogLevel, warn, info, error, fatal}
use shero.Base.Log.Events.{
  Statement, Origin, fresh_logger, run_statements, lines_of, has_fatal, pushed_to,
  run_statements-lines_of,
}

abbrev seven : Channel
seven = record { fd = 7; event = 3; revents = 0; status = ChannelStatus.add }

-- One event, an error and a timeout.
abbrev waits : List (Option (List (Channel × ℕ)))
waits = some ((seven, 1) ∷ []) ∷ none ∷ some [] ∷ []

polls_lem_example :
    polls 24 epoll_event_size waits
    ≡ some (epoll_event_size, map (λ o. map with_events (events_of o)) waits)
polls_lem_example = polls_lem 24 waits (omega arith) (omega arith)

abbrev listening : Reactor
listening = record new_reactor {
  channel = put 5 (record (new_channel 5) { event = 3; status = ChannelStatus.add }) new_channel;
  map = 5 ∷ [];
  interest = put 5 (some 3) (λ fd. none);
}

listening-Reach : Reach listening
unfolding update update_channel update_in change add_listen_events control new_reactor new_channel
    in_map
listening-Reach = next here (Step.updates 5 add_read listening refl)

Reach-IsMirrored_example : IsMirrored listening
Reach-IsMirrored_example = Reach-IsMirrored listening-Reach

update-remove_example :
    (is_some (update 5 del_all listening) ≡ true)
    × ((is_some (remove 5 listening) ≡ true) ↔ Removable 5 listening)
update-remove_example = update-remove 5 del_all listening-Reach

begun : Thread.Reach (thread started calling true (some 42) 0)
begun =
    Thread.next
      (Thread.next
        (Thread.next (Thread.next (Thread.next Thread.here Thread.Step.creates) Thread.Step.marks)
          (Thread.Step.identifies 42))
        Thread.Step.posts)
      Thread.Step.returns

Reach-InStep_example : InStep (thread started calling true (some 42) 0)
Reach-InStep_example = Reach-InStep begun

abbrev origin : Origin
origin = record { time = codes "now"; pid = codes "1"; tid = codes "2" }

abbrev says : LogLevel → Bytes → Statement
says level text = record {
  origin = origin;
  event = record { line = 7; file = codes "a.cc"; level = level };
  text = text;
}

abbrev said : List Statement
said = says info (codes "quiet") ∷ says error (codes "loud") ∷ says fatal (codes "last") ∷ []

run_statements-lines_of_example :
    (pushed_to (run_statements said (some (fresh_logger warn))).0 ≡ [] ++ lines_of warn said)
    × ((run_statements said (some (fresh_logger warn))).1 ≡ has_fatal said)
unfolding fresh_logger
run_statements-lines_of_example = run_statements-lines_of said (fresh_logger warn) refl
