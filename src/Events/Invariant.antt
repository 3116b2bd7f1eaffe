-- ===== src/Events/Invariant.antt =====
-- What holds of a hub after any interleaving of its steps.
use skifity.Events.Waiting.{Waits-suc, get_elem?-All, remove_at-All}
use skifity.Prelude.{
  All-append, get_elem?, Option, none, some, ◌+◌, length, All, ℕ, ◌≤◌, ◌≡◌, refl, false, List, [],
  ◌∷◌, arith,
}
use skifity.Prelude.Text.{Text, is_empty}
use skifity.Events.History.{Event, record_event, Hub, max_topics, find_topic}
use skifity.Events.Hub.{
  take_number, record_and_send, begin_publish, end_publish, remove_at, begins, ends, new_hub,
  publish, subscribe, replay_next, close_one, receive_one, replay_step, close, receive,
  forget_topic, sweep, Action, step, run, publishes, subscribes, replays, closes, receives, forgets,
  sweeps,
}
use skifity.Events.Ok.{Waits, SubOk, TopicOk}
use skifity.Events.Channels.{
  deliver-SubOk, sends_on_closed-false, update-All, replay_next-SubOk, close_one-SubOk,
  receive_one-SubOk, replay_on_closed-false,
}
use skifity.Events.Topics.{
  topics_ok-suc, delete_topic-ok, length-delete_topic-le, add_event-ok, add_event_bounded,
}
use skifity.Events.Sweep.{sweep_topics-ok, length-sweep_topics}

module _ {D : Type 0} where
  pub record Inv (h : Hub D) : Type 0 where
    pub subs_ok : All (SubOk h.buffer) h.subscribers
    pub topics_ok : All (TopicOk h.seq) h.history
    pub topics_bounded : length h.history ≤ max_topics
    pub waiting_ok : All (Waits h.seq) h.in_flight
    pub calm : h.panicked ≡ false

  -- Topics have names.
  abbrev pub Named : Action D → Type 0
  Named (publishes topic kind payload now) = is_empty topic ≡ false
  Named (begins topic kind payload now) = is_empty topic ≡ false
  Named _ = Unit {0}

  take_number-Inv :
      (h : Hub D) (topic kind : Text) (payload : D) (now : ℕ)
      → Inv h
      → Inv (take_number h topic kind payload now).0
  unfolding take_number
  take_number-Inv h topic kind payload now v = record {
    subs_ok = v.subs_ok;
    topics_ok = topics_ok-suc h.seq h.history v.topics_ok;
    topics_bounded = v.topics_bounded;
    waiting_ok = Waits-suc h.seq h.in_flight v.waiting_ok;
    calm = v.calm;
  }

  record_and_send-Inv :
      (h : Hub D) (ev : Event D) → Waits h.seq ev → Inv h → Inv (record_and_send h ev)
  unfolding record_and_send record_event
  record_and_send-Inv h ev waits v = record {
    subs_ok = deliver-SubOk h.buffer ev h.subscribers v.subs_ok;
    topics_ok =
        add_event-ok (find_topic ev.topic h.history) h.history ev h.seq refl v.topics_ok waits.0
          waits.1;
    topics_bounded =
        add_event_bounded (find_topic ev.topic h.history) h.history ev h.seq refl v.topics_ok
          v.topics_bounded;
    waiting_ok = v.waiting_ok;
    calm = rw (v.calm, sends_on_closed-false h.buffer ev.topic h.subscribers v.subs_ok);
  }

  publish-Inv :
      (h : Hub D) (topic kind : Text) (payload : D) (now : ℕ)
      → is_empty topic ≡ false
      → Inv h
      → Inv (publish h topic kind payload now).0
  unfolding publish take_number
  publish-Inv h topic kind payload now named v =
      record_and_send-Inv (take_number h topic kind payload now).0
        (take_number h topic kind payload now).1 (named, omega arith)
        (take_number-Inv h topic kind payload now v)

  begin_publish-Inv :
      (h : Hub D) (topic kind : Text) (payload : D) (now : ℕ)
      → is_empty topic ≡ false
      → Inv h
      → Inv (begin_publish h topic kind payload now)
  unfolding begin_publish take_number
  begin_publish-Inv h topic kind payload now named v =
      let w = take_number-Inv h topic kind payload now v in
      let ev = (take_number h topic kind payload now).1 in
      record {
        subs_ok = w.subs_ok;
        topics_ok = w.topics_ok;
        topics_bounded = w.topics_bounded;
        waiting_ok =
            All-append (Waits (h.seq + 1)) h.in_flight (ev ∷ []) w.waiting_ok
              ((named, omega arith), tt);
        calm = w.calm;
      }

  end_with-Inv :
      (h : Hub D) (n : ℕ) (found : Option (Event D))
      → get_elem? h.in_flight n ≡ found
      → Inv h
      → Inv (elim found [
        | none ↦ h
        | some ev ↦ record_and_send (record h { in_flight = remove_at n h.in_flight }) ev
      ])
  end_with-Inv h n none e v = v
  end_with-Inv h n (some ev) e v =
      record_and_send-Inv (record h { in_flight = remove_at n h.in_flight }) ev
        (get_elem?-All (Waits h.seq) h.in_flight n ev v.waiting_ok e)
        (record {
          subs_ok = v.subs_ok;
          topics_ok = v.topics_ok;
          topics_bounded = v.topics_bounded;
          waiting_ok = remove_at-All (Waits h.seq) n h.in_flight v.waiting_ok;
          calm = v.calm;
        })

  end_publish-Inv : (h : Hub D) (n : ℕ) → Inv h → Inv (end_publish h n)
  unfolding end_publish
  end_publish-Inv h n v = end_with-Inv h n (get_elem? h.in_flight n) refl v

  subscribe-Inv :
      (h : Hub D) (last_seq : ℕ) (topics : List Text) → Inv h → Inv (subscribe h last_seq topics)
  unfolding subscribe
  subscribe-Inv h last_seq topics v = record {
    subs_ok = ((omega arith, λ e. cc), v.subs_ok);
    topics_ok = v.topics_ok;
    topics_bounded = v.topics_bounded;
    waiting_ok = v.waiting_ok;
    calm = v.calm;
  }

  replay_step-Inv : (h : Hub D) (id : ℕ) → Inv h → Inv (replay_step h id)
  unfolding replay_step
  replay_step-Inv h id v = record {
    subs_ok =
        update-All (SubOk h.buffer) (λ s. replay_next h.buffer s.pending s) id h.subscribers
          (λ s ok. replay_next-SubOk h.buffer s.pending s refl ok) v.subs_ok;
    topics_ok = v.topics_ok;
    topics_bounded = v.topics_bounded;
    waiting_ok = v.waiting_ok;
    calm = rw (v.calm, replay_on_closed-false h.buffer id h.subscribers v.subs_ok);
  }

  close-Inv : (h : Hub D) (id : ℕ) → Inv h → Inv (close h id)
  unfolding close
  close-Inv h id v = record {
    subs_ok =
        update-All (SubOk h.buffer) (λ s. close_one s.pending s) id h.subscribers
          (λ s ok. close_one-SubOk h.buffer s.pending s refl ok) v.subs_ok;
    topics_ok = v.topics_ok;
    topics_bounded = v.topics_bounded;
    waiting_ok = v.waiting_ok;
    calm = v.calm;
  }

  receive-Inv : (h : Hub D) (id : ℕ) → Inv h → Inv (receive h id)
  unfolding receive
  receive-Inv h id v = record {
    subs_ok =
        update-All (SubOk h.buffer) (λ s. receive_one s.queue s) id h.subscribers
          (λ s ok. receive_one-SubOk h.buffer s.queue s refl ok) v.subs_ok;
    topics_ok = v.topics_ok;
    topics_bounded = v.topics_bounded;
    waiting_ok = v.waiting_ok;
    calm = v.calm;
  }

  forget_topic-Inv : (h : Hub D) (topic : Text) → Inv h → Inv (forget_topic h topic)
  unfolding forget_topic
  forget_topic-Inv h topic v = record {
    subs_ok = v.subs_ok;
    topics_ok = delete_topic-ok (TopicOk h.seq) topic h.history v.topics_ok;
    topics_bounded = omega (arith, length-delete_topic-le topic h.history, v.topics_bounded);
    waiting_ok = v.waiting_ok;
    calm = v.calm;
  }

  sweep-Inv : (h : Hub D) (now : ℕ) → Inv h → Inv (sweep h now).0
  unfolding sweep
  sweep-Inv h now v = record {
    subs_ok = v.subs_ok;
    topics_ok = sweep_topics-ok (TopicOk h.seq) now h.history v.topics_ok;
    topics_bounded = omega (arith, length-sweep_topics now h.history, v.topics_bounded);
    waiting_ok = v.waiting_ok;
    calm = v.calm;
  }

  step-Inv : (h : Hub D) (a : Action D) → Named a → Inv h → Inv (step h a)
  unfolding step
  step-Inv h (publishes topic kind payload now) named v =
      publish-Inv h topic kind payload now named v
  step-Inv h (begins topic kind payload now) named v =
      begin_publish-Inv h topic kind payload now named v
  step-Inv h (ends n) named v = end_publish-Inv h n v
  step-Inv h (subscribes last_seq topics) named v = subscribe-Inv h last_seq topics v
  step-Inv h (replays id) named v = replay_step-Inv h id v
  step-Inv h (closes id) named v = close-Inv h id v
  step-Inv h (receives id) named v = receive-Inv h id v
  step-Inv h (forgets topic) named v = forget_topic-Inv h topic v
  step-Inv h (sweeps now) named v = sweep-Inv h now v

  run-Inv :
      (h : Hub D) (actions : List (Action D)) → All Named actions → Inv h → Inv (run h actions)
  unfolding run
  run-Inv h [] named v = v
  run-Inv h (a ∷ actions) named v = run-Inv (step h a) actions named.1 (step-Inv h a named.0 v)

  new_hub-Inv : (buffer : ℕ) → Inv (new_hub buffer)
  unfolding new_hub
  new_hub-Inv buffer = record {
    subs_ok = tt;
    topics_ok = tt;
    topics_bounded = omega arith;
    waiting_ok = tt;
    calm = refl;
  }

  -- However publishing, its two halves apart, subscribing, replaying, closing, reading,
  -- forgetting and sweeping are interleaved, on topics that have a name: no event is sent on a
  -- closed channel, no queue passes its capacity, no topic keeps more than 200 events, and there
  -- are at most 5000 topics.
  pub run-new_hub-Inv :
      (buffer : ℕ) (actions : List (Action D))
      → All Named actions
      → Inv (run (new_hub buffer) actions)
  run-new_hub-Inv buffer actions named = run-Inv (new_hub buffer) actions named (new_hub-Inv buffer)
