-- ===== src/Events/Asked.antt =====
-- What each part of the hub does with the topics that a client asked for.
use skifity.Prelude.{
  ltb, leb, if◌then◌else◌, Bool-cases, nat_eq, ◌==◌, list_beq_iff, length, any, filter, All,
  All-append, All-drop, ℕ, ◌-◌, ◌≡◌, refl, sym, subst, inl, inr, Bool, true, false, Option, none,
  some, List, [], ◌∷◌, ◌++◌, arith,
}
use skifity.Prelude.Text.{Text, text_eq, is_empty}
use skifity.Events.History.{
  Event, Subscriber, TopicHistory, history_limit, max_topics, find_topic, oldest_topic,
  evict_oldest, append_event, make_room, add_event,
}
use skifity.Events.Hub.{
  try_send, listens, deliver, collect_replay, replay_next, close_one, receive_one,
}
use skifity.Events.Topics.{delete_topic-ok}

wider :
    (u : Text) (requested topics : List Text)
    → All (λ t. any (λ x. x == t) requested ≡ true) topics
    → All (λ t. any (λ x. x == t) (u ∷ requested) ≡ true) topics
wider u requested [] h = tt
wider u requested (t ∷ topics) h = (ground (arith, h.0), wider u requested topics h.1)

pub each_requested : (topics : List Text) → All (λ t. any (λ x. x == t) topics ≡ true) topics
each_requested [] = tt
each_requested (t ∷ topics) =
    (ground (arith, (list_beq_iff t t).1 refl), wider t topics topics (each_requested topics))

module _ {D : Type 0} where
  abbrev pub Asked : List Text → Event D → Type 0
  Asked topics ev = any (λ t. t == ev.topic) topics ≡ true

  -- What is in the channel, and what is still to be replayed.
  abbrev pub SubPrivate : Subscriber D → Type 0
  SubPrivate s = All (Asked s.topics) s.queue × All (Asked s.topics) s.pending

  -- The events of a topic's history are that topic's.
  abbrev pub Filed : Text × TopicHistory D → Type 0
  Filed entry = All (λ (ev : Event D). ev.topic ≡ entry.0) entry.1.events

  pub try_send-SubPrivate :
      (buffer : ℕ) (ev : Event D) (s : Subscriber D)
      → Asked s.topics ev
      → SubPrivate s
      → SubPrivate (try_send buffer ev s)
  unfolding try_send
  try_send-SubPrivate buffer ev s asked h = elim (Bool-cases (ltb (length s.queue) buffer)) [
    | inl e ↦ rw e (All-append (Asked s.topics) s.queue (ev ∷ []) h.0 (asked, tt), h.1)
    | inr e ↦ rw e h
  ]

  listens-Asked : (s : Subscriber D) (ev : Event D) → listens s ev.topic ≡ true → Asked s.topics ev
  listens-Asked s ev h = ground (arith, h)

  pub deliver-SubPrivate :
      (buffer : ℕ) (ev : Event D) (subs : List (Subscriber D))
      → All SubPrivate subs
      → All SubPrivate (deliver buffer ev subs)
  unfolding deliver
  deliver-SubPrivate buffer ev [] h = tt
  deliver-SubPrivate buffer ev (s ∷ subs) h = (
    elim (Bool-cases (listens s ev.topic)) [
      | inl e ↦ rw e (try_send-SubPrivate buffer ev s (listens-Asked s ev e) h.0)
      | inr e ↦ rw e h.0
    ],
    deliver-SubPrivate buffer ev subs h.1,
  )

  pub replay_next-SubPrivate :
      (buffer : ℕ) (pending : List (Event D)) (s : Subscriber D)
      → s.pending ≡ pending
      → SubPrivate s
      → SubPrivate (replay_next buffer pending s)
  unfolding replay_next
  replay_next-SubPrivate buffer [] s e h = h
  replay_next-SubPrivate buffer (ev ∷ rest) s e h =
      let waiting = subst (All (Asked s.topics)) e h.1 in
      try_send-SubPrivate buffer ev (record s { pending = rest }) waiting.0 (h.0, waiting.1)

  pub close_one-SubPrivate :
      (pending : List (Event D)) (s : Subscriber D)
      → SubPrivate s
      → SubPrivate (close_one pending s)
  unfolding close_one
  close_one-SubPrivate (ev ∷ rest) s h = h
  close_one-SubPrivate [] s h = elim (Bool-cases s.registered) [ inl e ↦ rw e h | inr e ↦ rw e h ]

  pub receive_one-SubPrivate :
      (queue : List (Event D)) (s : Subscriber D)
      → s.queue ≡ queue
      → SubPrivate s
      → SubPrivate (receive_one queue s)
  unfolding receive_one
  receive_one-SubPrivate [] s e h = h
  receive_one-SubPrivate (ev ∷ rest) s e h = ((subst (All (Asked s.topics)) e h.0).1, h.1)

  append_event-Filed :
      (topic : Text) (events : List (Event D)) (ev : Event D)
      → ev.topic ≡ topic
      → All (λ (e : Event D). e.topic ≡ topic) events
      → Filed (topic, append_event events ev)
  unfolding append_event
  append_event-Filed topic events ev own old =
      let more = events ++ ev ∷ [] in
      All-drop _ (length more - history_limit) more
        (All-append (λ (e : Event D). e.topic ≡ topic) events (ev ∷ []) old (own, tt))

  find_topic-Filed :
      (topic : Text) (history : List (Text × TopicHistory D)) (entry : TopicHistory D)
      → All Filed history
      → find_topic topic history ≡ some entry
      → Filed (topic, entry)
  unfolding find_topic
  find_topic-Filed topic [] entry h f = cc
  find_topic-Filed topic ((t, e) ∷ rest) entry h f = elim (Bool-cases (t == topic)) [
    | inl same ↦
        let found : e ≡ entry = ground arith in
        subst (λ x. Filed (topic, x)) found
          (subst (λ x. Filed (x, e)) ((list_beq_iff t topic).0 same) h.0)
    | inr other ↦ find_topic-Filed topic rest entry h.1 (ground arith)
  ]

  make_room-Filed :
      (history : List (Text × TopicHistory D)) → All Filed history → All Filed (make_room history)
  unfolding make_room evict_oldest
  make_room-Filed history h =
      let oldest = oldest_topic [] 0 history in
      let deleted = delete_topic-ok Filed oldest history h in
      elim (Bool-cases (leb max_topics (length history))) [
        | inl full ↦
            rw full (elim (Bool-cases (is_empty oldest)) [ inl e ↦ rw e h | inr e ↦ rw e deleted ])
        | inr room ↦ rw room h
      ]

  pub add_event-Filed :
      (found : Option (TopicHistory D)) (history : List (Text × TopicHistory D)) (ev : Event D)
      → find_topic ev.topic history ≡ found
      → All Filed history
      → All Filed (add_event found history ev)
  unfolding add_event
  add_event-Filed none history ev f h =
      (append_event-Filed ev.topic [] ev refl tt, make_room-Filed history h)
  add_event-Filed (some entry) history ev f h = (
    append_event-Filed ev.topic entry.events ev refl (find_topic-Filed ev.topic history entry h f),
    delete_topic-ok Filed ev.topic history h,
  )

  kept_if :
      (P : Event D → Type 0) (b : Bool) (ev : Event D) (rest : List (Event D))
      → P ev
      → All P rest
      → All P (elim b [ true ↦ ev ∷ rest | false ↦ rest ])
  kept_if P true ev rest e h = (e, h)
  kept_if P false ev rest e h = h

  filter-All :
      (P : Event D → Type 0) (p : Event D → Bool) (events : List (Event D))
      → All P events
      → All P (filter p events)
  filter-All P p [] h = tt
  filter-All P p (ev ∷ events) h =
      kept_if P (p ev) ev (filter p events) h.0 (filter-All P p events h.1)

  of_topic-Asked :
      (requested : List Text) (t : Text) (events : List (Event D))
      → any (λ u. u == t) requested ≡ true
      → All (λ (ev : Event D). ev.topic ≡ t) events
      → All (Asked requested) events
  of_topic-Asked requested t [] asked h = tt
  of_topic-Asked requested t (ev ∷ events) asked (e, h) = (
    subst (λ x. any (λ u. u == x) requested ≡ true) (sym e) asked,
    of_topic-Asked requested t events asked h,
  )

  chosen-Asked :
      (requested : List Text) (last_seq : ℕ) (t : Text) (found : Option (TopicHistory D))
      (later : List (Event D))
      → any (λ u. u == t) requested ≡ true
      → ((entry : TopicHistory D) → found ≡ some entry → Filed (t, entry))
      → All (Asked requested) later
      → All (Asked requested) (elim found [
        | none ↦ later
        | some entry ↦ filter (λ ev. ltb last_seq ev.seq) entry.events ++ later
      ])
  chosen-Asked requested last_seq t none later asked own h = h
  chosen-Asked requested last_seq t (some entry) later asked own h =
      All-append (Asked requested) _ later
        (filter-All (Asked requested) (λ ev. ltb last_seq ev.seq) entry.events
          (of_topic-Asked requested t entry.events asked (own entry refl)))
        h

  pub collect_replay-Asked :
      (requested topics : List Text) (last_seq : ℕ) (history : List (Text × TopicHistory D))
      → All Filed history
      → All (λ t. any (λ u. u == t) requested ≡ true) topics
      → All (Asked requested) (collect_replay history last_seq topics)
  unfolding collect_replay
  collect_replay-Asked requested [] last_seq history own h = tt
  collect_replay-Asked requested (t ∷ topics) last_seq history own h =
      chosen-Asked requested last_seq t (find_topic t history)
        (collect_replay history last_seq topics) h.0
        (λ entry e. find_topic-Filed t history entry own e)
        (collect_replay-Asked requested topics last_seq history own h.1)

  pub replay_if :
      (b : Bool) (topics : List Text) (events : List (Event D))
      → All (Asked topics) events
      → All (Asked topics) (if b then events else [])
  replay_if true topics events h = h
  replay_if false topics events h = tt
