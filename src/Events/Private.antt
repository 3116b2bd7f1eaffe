-- ===== src/Events/Private.antt =====
-- No client is sent an event of a topic that it did not ask for.
use skifity.Prelude.{ltb, get_elem?, All, ℕ, refl, Option, none, some, List, [], ◌∷◌}
use skifity.Prelude.Text.{Text}
use skifity.Events.History.{Event, Subscriber, Hub, find_topic, record_event}
use skifity.Events.Hub.{
  new_hub, take_number, record_and_send, publish, begin_publish, remove_at, end_publish,
  collect_replay, subscribe, replay_next, close_one, receive_one, update, replay_step, close,
  receive, forget_topic, sweep, Action, step, run, publishes, begins, ends, subscribes, replays,
  closes, receives, forgets, sweeps,
}
use skifity.Events.Asked.{
  each_requested, SubPrivate, Filed, deliver-SubPrivate, replay_next-SubPrivate,
  close_one-SubPrivate, receive_one-SubPrivate, add_event-Filed, collect_replay-Asked, replay_if,
}
use skifity.Events.Channels.{update-All}
use skifity.Events.Topics.{delete_topic-ok}
use skifity.Events.Sweep.{sweep_topics-ok}

module _ {D : Type 0} where
  pub record Private (h : Hub D) : Type 0 where
    pub subs_private : All SubPrivate h.subscribers
    pub filed : All Filed h.history

  subscribe-Private :
      (h : Hub D) (last_seq : ℕ) (topics : List Text)
      → Private h
      → Private (subscribe h last_seq topics)
  unfolding subscribe
  subscribe-Private h last_seq topics v = record {
    subs_private = (
      (
        tt,
        replay_if (ltb 0 last_seq) topics (collect_replay h.history last_seq topics)
            (collect_replay-Asked topics topics last_seq h.history v.filed (each_requested topics)),
      ),
      v.subs_private,
    );
    filed = v.filed;
  }

  record_and_send-Private : (h : Hub D) (ev : Event D) → Private h → Private (record_and_send h ev)
  unfolding record_and_send record_event
  record_and_send-Private h ev v = record {
    subs_private = deliver-SubPrivate h.buffer ev h.subscribers v.subs_private;
    filed = add_event-Filed (find_topic ev.topic h.history) h.history ev refl v.filed;
  }

  end_with-Private :
      (h : Hub D) (n : ℕ) (found : Option (Event D))
      → Private h
      → Private (elim found [
        | none ↦ h
        | some ev ↦ record_and_send (record h { in_flight = remove_at n h.in_flight }) ev
      ])
  end_with-Private h n none v = v
  end_with-Private h n (some ev) v =
      record_and_send-Private (record h { in_flight = remove_at n h.in_flight }) ev
        (record { subs_private = v.subs_private; filed = v.filed })

  changed-Private :
      (h : Hub D) (id : ℕ) (f : Subscriber D → Subscriber D)
      → ((s : Subscriber D) → SubPrivate s → SubPrivate (f s))
      → Private h
      → All SubPrivate (update f id h.subscribers)
  changed-Private h id f keep v = update-All SubPrivate f id h.subscribers keep v.subs_private

  step-Private : (h : Hub D) (a : Action D) → Private h → Private (step h a)
  unfolding step publish begin_publish end_publish take_number replay_step close receive
      forget_topic sweep
  step-Private h (publishes topic kind payload now) v =
      record_and_send-Private (take_number h topic kind payload now).0
        (take_number h topic kind payload now).1
        (record { subs_private = v.subs_private; filed = v.filed })
  step-Private h (begins topic kind payload now) v = record {
    subs_private = v.subs_private;
    filed = v.filed;
  }
  step-Private h (ends n) v = end_with-Private h n (get_elem? h.in_flight n) v
  step-Private h (subscribes last_seq topics) v = subscribe-Private h last_seq topics v
  step-Private h (replays id) v = record {
    subs_private =
        changed-Private h id (λ s. replay_next h.buffer s.pending s)
          (λ s own. replay_next-SubPrivate h.buffer s.pending s refl own) v;
    filed = v.filed;
  }
  step-Private h (closes id) v = record {
    subs_private =
        changed-Private h id (λ s. close_one s.pending s)
          (λ s own. close_one-SubPrivate s.pending s own) v;
    filed = v.filed;
  }
  step-Private h (receives id) v = record {
    subs_private =
        changed-Private h id (λ s. receive_one s.queue s)
          (λ s own. receive_one-SubPrivate s.queue s refl own) v;
    filed = v.filed;
  }
  step-Private h (forgets topic) v = record {
    subs_private = v.subs_private;
    filed = delete_topic-ok Filed topic h.history v.filed;
  }
  step-Private h (sweeps now) v = record {
    subs_private = v.subs_private;
    filed = sweep_topics-ok Filed now h.history v.filed;
  }

  run-Private : (h : Hub D) (actions : List (Action D)) → Private h → Private (run h actions)
  unfolding run
  run-Private h [] v = v
  run-Private h (a ∷ actions) v = run-Private (step h a) actions (step-Private h a v)

  -- However the steps are interleaved, no client's channel or replay holds an event of a topic
  -- that the client did not ask for, and each topic's history holds events of that topic only.
  pub run-new_hub-Private :
      (buffer : ℕ) (actions : List (Action D)) → Private (run (new_hub buffer) actions)
  unfolding new_hub
  run-new_hub-Private buffer actions =
      run-Private (new_hub buffer) actions (record { subs_private = tt; filed = tt })
