-- ===== src/Events/Hub.antt =====
-- internal/events/hub.go. The mutex makes each locked section one step; what runs outside the
-- lock, the number that `Publish` takes and the sends of a replay, is a step of its own, so that
-- other steps come between. A send on a closed channel sets `panicked`. Sequence numbers do not
-- wrap.
use skifity.Prelude.{
  ltb, if◌then◌else◌, ◌==◌, nat_eq, length, any, filter, ℕ, ◌+◌, Bool, true, false, ◌&&◌, ◌||◌,
  none, some, List, [], ◌∷◌, ◌++◌, get_elem?, zero, suc,
}
use skifity.Prelude.Text.{Text, text_eq}
use skifity.Events.History.{
  Event, Subscriber, TopicHistory, Hub, default_buffer, find_topic, delete_topic, record_event,
  sweep_topics,
}

module _ {D : Type 0} where
  unfoldable pub new_hub : ℕ → Hub D
  new_hub buffer = record {
    subscribers = [];
    next_id = 0;
    seq = 0;
    buffer = if buffer == 0 then default_buffer else buffer;
    history = [];
    in_flight = [];
    panicked = false;
  }

  -- The `select` with a default arm, on an open channel of the given capacity.
  unfoldable pub try_send : ℕ → Event D → Subscriber D → Subscriber D
  try_send buffer ev s =
      if ltb (length s.queue) buffer
      then record s { queue = s.queue ++ ev ∷ [] }
      else record s { dropped = s.dropped + 1 }

  abbrev pub listens : Subscriber D → Text → Bool
  listens s topic = s.registered && any (λ t. t == topic) s.topics

  unfoldable pub deliver : ℕ → Event D → List (Subscriber D) → List (Subscriber D)
  unfolding try_send
  deliver buffer ev [] = []
  deliver buffer ev (s ∷ subs) =
      (if listens s ev.topic then try_send buffer ev s else s) ∷ deliver buffer ev subs

  -- Whether a send of `deliver` goes to a closed channel.
  abbrev pub sends_on_closed : Text → List (Subscriber D) → Bool
  sends_on_closed topic = any (λ s. listens s topic && s.closed)

  -- What `Publish` does before it takes the lock: the event has its number from here on.
  unfoldable pub take_number : Hub D → Text → Text → D → ℕ → Hub D × Event D
  take_number h topic kind payload now = (
    record h { seq = h.seq + 1 },
    record { topic = topic; kind = kind; seq = h.seq + 1; payload = payload; at = now },
  )

  -- The locked part of `Publish`.
  unfoldable pub record_and_send : Hub D → Event D → Hub D
  unfolding record_event deliver
  record_and_send h ev = record h {
    history = record_event h.history ev;
    subscribers = deliver h.buffer ev h.subscribers;
    panicked = h.panicked || sends_on_closed ev.topic h.subscribers;
  }

  -- A publication that nothing comes between.
  unfoldable pub publish : Hub D → Text → Text → D → ℕ → Hub D × Event D
  unfolding take_number record_and_send
  publish h topic kind payload now =
      let (numbered, ev) = take_number h topic kind payload now in (record_and_send numbered ev, ev)

  -- A publisher that has its number, and one that gets the lock: the one at a place among those
  -- that wait for it.
  unfoldable pub begin_publish : Hub D → Text → Text → D → ℕ → Hub D
  unfolding take_number
  begin_publish h topic kind payload now =
      let (numbered, ev) = take_number h topic kind payload now in
      record numbered { in_flight = numbered.in_flight ++ ev ∷ [] }

  unfoldable pub remove_at : ℕ → List (Event D) → List (Event D)
  remove_at n [] = []
  remove_at zero (ev ∷ rest) = rest
  remove_at (suc n) (ev ∷ rest) = ev ∷ remove_at n rest

  unfoldable pub end_publish : Hub D → ℕ → Hub D
  unfolding record_and_send remove_at
  end_publish h n = elim (get_elem? h.in_flight n) [
    | none ↦ h
    | some ev ↦ record_and_send (record h { in_flight = remove_at n h.in_flight }) ev
  ]

  unfoldable pub collect_replay : List (Text × TopicHistory D) → ℕ → List Text → List (Event D)
  collect_replay history last_seq [] = []
  collect_replay history last_seq (t ∷ topics) = elim (find_topic t history) [
    | none ↦ collect_replay history last_seq topics
    | some entry ↦
        filter (λ ev. ltb last_seq ev.seq) entry.events ++ collect_replay history last_seq topics
  ]

  -- The locked part of `Subscribe`.
  unfoldable pub subscribe : Hub D → ℕ → List Text → Hub D
  subscribe h last_seq topics = record h {
    next_id = h.next_id + 1;
    subscribers =
        record {
          id = h.next_id;
          queue = [];
          topics = topics;
          dropped = 0;
          pending = if ltb 0 last_seq then collect_replay h.history last_seq topics else [];
          registered = true;
          closed = false;
        }
        ∷ h.subscribers;
  }

  unfoldable pub replay_next : ℕ → List (Event D) → Subscriber D → Subscriber D
  unfolding try_send
  replay_next buffer [] s = s
  replay_next buffer (ev ∷ rest) s = try_send buffer ev (record s { pending = rest })

  -- The context ends or `Close` is called, after `Subscribe` has returned.
  unfoldable pub close_one : List (Event D) → Subscriber D → Subscriber D
  close_one (_ ∷ _) s = s
  close_one [] s = if s.registered then record s { registered = false; closed = true } else s

  unfoldable pub receive_one : List (Event D) → Subscriber D → Subscriber D
  receive_one [] s = s
  receive_one (_ ∷ rest) s = record s { queue = rest }

  unfoldable pub update :
      (Subscriber D → Subscriber D) → ℕ → List (Subscriber D) → List (Subscriber D)
  update f id [] = []
  update f id (s ∷ subs) = (if s.id == id then f s else s) ∷ update f id subs

  -- One event of a replay is sent, outside the lock.
  unfoldable pub replay_step : Hub D → ℕ → Hub D
  unfolding update replay_next
  replay_step h id = record h {
    subscribers = update (λ s. replay_next h.buffer s.pending s) id h.subscribers;
    panicked =
        h.panicked || any (λ s. s.id == id && (s.closed && ltb 0 (length s.pending))) h.subscribers;
  }

  unfoldable pub close : Hub D → ℕ → Hub D
  unfolding update close_one
  close h id = record h { subscribers = update (λ s. close_one s.pending s) id h.subscribers }

  unfoldable pub receive : Hub D → ℕ → Hub D
  unfolding update receive_one
  receive h id = record h { subscribers = update (λ s. receive_one s.queue s) id h.subscribers }

  unfoldable pub forget_topic : Hub D → Text → Hub D
  forget_topic h topic = record h { history = delete_topic topic h.history }

  unfoldable pub sweep : Hub D → ℕ → Hub D × ℕ
  unfolding sweep_topics
  sweep h now =
      let (kept, dropped) = sweep_topics now h.history in (record h { history = kept }, dropped)

  unfoldable pub topic_count : Hub D → ℕ
  topic_count h = length h.history

  unfoldable pub subscriber_count : Hub D → ℕ
  subscriber_count h = length (filter (λ s. s.registered) h.subscribers)

-- What may happen to a hub, in any order.
pub data Action (D : Type 0) : Type 0 where
  publishes begins : Text → Text → D → ℕ → Action D
  ends : ℕ → Action D
  subscribes : ℕ → List Text → Action D
  replays closes receives : ℕ → Action D
  forgets : Text → Action D
  sweeps : ℕ → Action D

module _ {D : Type 0} where
  unfoldable pub step : Hub D → Action D → Hub D
  step h (publishes topic kind payload now) = (publish h topic kind payload now).0
  step h (begins topic kind payload now) = begin_publish h topic kind payload now
  step h (ends n) = end_publish h n
  step h (subscribes last_seq topics) = subscribe h last_seq topics
  step h (replays id) = replay_step h id
  step h (closes id) = close h id
  step h (receives id) = receive h id
  step h (forgets topic) = forget_topic h topic
  step h (sweeps now) = (sweep h now).0

  unfoldable pub run : Hub D → List (Action D) → Hub D
  run h [] = h
  run h (a ∷ actions) = run (step h a) actions
