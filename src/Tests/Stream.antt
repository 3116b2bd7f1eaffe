-- ===== src/Tests/Stream.antt =====
-- A hub with a slow client, a replay and a close in the middle of it.
use skifity.Prelude.{filter, ℕ, ◌+◌, ◌≡◌, refl, List, [], ◌∷◌, map}
use skifity.Prelude.Text.{Text, codes}
use skifity.Events.History.{Subscriber, find_topic, append_event}
use skifity.Events.Hub.{
  begins, ends, begin_publish, end_publish, take_number, new_hub, deliver, publish, collect_replay,
  subscribe, replay_step, close, receive, sweep, topic_count, Action, step, run, publishes,
  subscribes, replays, closes, receives, sweeps,
}
use skifity.Events.Sweep.{is_fresh, sweep_exact}
use skifity.Events.Private.{Private, run-new_hub-Private}
use skifity.Events.Invariant.{Inv, run-new_hub-Inv}

abbrev news : Text
news = codes "news"

abbrev busy : List (Action ℕ)
busy =
    subscribes 0 (news ∷ [])
    ∷ publishes news (codes "k") 1 10
    ∷ publishes news (codes "k") 2 11
    ∷ subscribes 1 (news ∷ [])
    ∷ replays 1
    ∷ begins news (codes "k") 3 12
    ∷ ends 0
    ∷ receives 0
    ∷ closes 1
    ∷ publishes news (codes "k") 4 13
    ∷ sweeps 20
    ∷ []

run-new_hub-Inv_example : Inv (run (new_hub 2) busy)
run-new_hub-Inv_example =
    run-new_hub-Inv 2 busy
      (tt, (refl, (refl, (tt, (tt, (refl, (tt, (tt, (tt, (refl, (tt, tt)))))))))))

run-new_hub-Private_example : Private (run (new_hub 2) busy)
run-new_hub-Private_example = run-new_hub-Private 2 busy

sweep_exact_example :
    let (after, dropped) = sweep (run (new_hub 2) busy) 1812 in
    (after.history ≡ filter (is_fresh 1812) (run (new_hub 2) busy).history)
    × (topic_count after + dropped ≡ topic_count (run (new_hub 2) busy))
    × (record after { history = (run (new_hub 2) busy).history } ≡ run (new_hub 2) busy)
sweep_exact_example = sweep_exact (run (new_hub 2) busy) 1812

busy_dropped : map (λ s. s.dropped) (run (new_hub 2) busy).subscribers ≡ 0 ∷ 1 ∷ []
unfolding run step new_hub publish begin_publish end_publish subscribe replay_step receive close
    sweep deliver collect_replay find_topic append_event
busy_dropped = refl

-- A publisher that is slow to take the lock, a client that is sent the later number and leaves,
-- and comes back asking for what follows it.
abbrev overtaken : List (Action ℕ)
overtaken =
    subscribes 0 (news ∷ [])
    ∷ begins news (codes "slow") 1 10
    ∷ begins news (codes "fast") 2 10
    ∷ ends 1
    ∷ closes 0
    ∷ ends 0
    ∷ subscribes 2 (news ∷ [])
    ∷ replays 1
    ∷ []

abbrev kinds : Subscriber ℕ → List Text
kinds s = map (λ ev. ev.kind) s.queue

-- Neither of its connections was sent the slow one.
overtaken_missed : map kinds (run (new_hub 2) overtaken).subscribers ≡ [] ∷ (codes "fast" ∷ []) ∷ []
unfolding run step new_hub begin_publish end_publish take_number subscribe replay_step receive close
    deliver collect_replay find_topic append_event
overtaken_missed = refl
