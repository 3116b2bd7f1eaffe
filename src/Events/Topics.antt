-- ===== src/Events/Topics.antt =====
-- What each step does to the histories of the topics keeps them well-formed and bounded.
use skifity.Prelude.{
  ltb, leb, Bool-cases, ◌==◌, nat_eq, list_beq_iff, length, length-drop, All, All-append, All-drop,
  ℕ, ◌+◌, ◌-◌, ◌≤◌, ◌<◌, ◌≡◌, refl, subst, ◌⊎◌, inl, inr, false, ◌||◌, Option, none, some, List, [],
  ◌∷◌, ◌++◌, arith,
}
use skifity.Prelude.Text.{Text, text_eq, is_empty}
use skifity.Events.History.{
  Event, TopicHistory, history_limit, max_topics, find_topic, delete_topic, oldest_topic,
  evict_oldest, append_event, make_room, add_event,
}
use skifity.Events.Ok.{TopicOk}

module _ {D : Type 0} where
  pub delete_topic-ok :
      (P : Text × TopicHistory D → Type 0) (topic : Text) (history : List (Text × TopicHistory D))
      → All P history
      → All P (delete_topic topic history)
  unfolding delete_topic
  delete_topic-ok P topic [] h = tt
  delete_topic-ok P topic ((t, e) ∷ rest) h = elim (Bool-cases (t == topic)) [
    | inl same ↦ rw same (delete_topic-ok P topic rest h.1)
    | inr other ↦ rw other (h.0, delete_topic-ok P topic rest h.1)
  ]

  pub length-delete_topic-le :
      (topic : Text) (history : List (Text × TopicHistory D))
      → length (delete_topic topic history) ≤ length history
  unfolding delete_topic
  length-delete_topic-le topic [] = omega arith
  length-delete_topic-le topic (entry ∷ rest) = ground (arith, length-delete_topic-le topic rest)

  -- A topic that is there is taken away.
  pub length-delete_topic-lt :
      (topic : Text) (history : List (Text × TopicHistory D)) (entry : TopicHistory D)
      → find_topic topic history ≡ some entry
      → length (delete_topic topic history) < length history
  unfolding delete_topic find_topic
  length-delete_topic-lt topic [] entry h = cc
  length-delete_topic-lt topic ((t, e) ∷ rest) entry h =
      ground (arith, length-delete_topic-le topic rest, length-delete_topic-lt topic rest entry)

  -- The topic that is chosen has a name and is one of the entries, if there are any.
  abbrev Known : Text → List (Text × TopicHistory D) → Type 0
  Known topic history = (entry : TopicHistory D) × (find_topic topic history ≡ some entry)

  pub Known-cons :
      (topic t : Text) (e : TopicHistory D) (rest : List (Text × TopicHistory D))
      → Known topic rest
      → Known topic ((t, e) ∷ rest)
  unfolding find_topic
  Known-cons topic t e rest (entry, h) = elim (Bool-cases (t == topic)) [
    | inl same ↦ (e, rw same)
    | inr other ↦ (entry, rw other h)
  ]

  pub Known-self :
      (t : Text) (e : TopicHistory D) (rest : List (Text × TopicHistory D))
      → Known t ((t, e) ∷ rest)
  unfolding find_topic
  Known-self t e rest = (e, rw ((list_beq_iff t t).1 refl))

  pub oldest_topic-Known :
      (oldest : Text) (at seq : ℕ) (history : List (Text × TopicHistory D))
      → All (TopicOk seq) history
      → (oldest_topic oldest at history ≡ oldest)
        ⊎ ((is_empty (oldest_topic oldest at history) ≡ false)
            × Known (oldest_topic oldest at history) history)
  unfolding oldest_topic
  oldest_topic-Known oldest at seq [] h = inl refl
  oldest_topic-Known oldest at seq ((t, e) ∷ rest) h =
      elim (Bool-cases (is_empty oldest || ltb e.last_at at)) [
        | inl b ↦ rw b (elim (oldest_topic-Known t e.last_at seq rest h.1) [
          | inl q ↦ inr (rw q h.0.0, rw q (Known-self t e rest))
          | inr (ne, k) ↦ inr (ne, Known-cons (oldest_topic t e.last_at rest) t e rest k)
        ])
        | inr b ↦ rw b (elim (oldest_topic-Known oldest at seq rest h.1) [
          | inl q ↦ inl q
          | inr (ne, k) ↦ inr (ne, Known-cons (oldest_topic oldest at rest) t e rest k)
        ])
      ]

  -- Evicting from a history that holds something makes room.
  pub evict_oldest_shorter :
      (seq : ℕ) (history : List (Text × TopicHistory D))
      → All (TopicOk seq) history
      → 0 < length history
      → length (evict_oldest history) < length history
  unfolding evict_oldest oldest_topic
  evict_oldest_shorter seq [] h l = elim l [ ]
  evict_oldest_shorter seq ((t, e) ∷ rest) h l =
      elim (oldest_topic-Known t e.last_at seq rest h.1) [
        | inl q ↦
            rw (q, h.0.0)
              (length-delete_topic-lt t ((t, e) ∷ rest) (Known-self t e rest).0
                (Known-self t e rest).1)
        | inr (ne, k) ↦
            let (entry, f) = Known-cons (oldest_topic t e.last_at rest) t e rest k in
            rw ne (length-delete_topic-lt (oldest_topic t e.last_at rest) ((t, e) ∷ rest) entry f)
      ]

  pub evict_oldest-ok :
      (seq : ℕ) (history : List (Text × TopicHistory D))
      → All (TopicOk seq) history
      → All (TopicOk seq) (evict_oldest history)
  unfolding evict_oldest
  evict_oldest-ok seq history h = elim (Bool-cases (is_empty (oldest_topic [] 0 history))) [
    | inl e ↦ rw e h
    | inr e ↦ rw e (delete_topic-ok (TopicOk seq) (oldest_topic [] 0 history) history h)
  ]

  pub TopicOk-suc :
      (seq : ℕ) (events : List (Event D))
      → All (λ ev. ev.seq ≤ seq) events
      → All (λ ev. ev.seq ≤ seq + 1) events
  TopicOk-suc seq [] h = tt
  TopicOk-suc seq (ev ∷ events) h = (omega arith, TopicOk-suc seq events h.1)

  pub topics_ok-suc :
      (seq : ℕ) (history : List (Text × TopicHistory D))
      → All (TopicOk seq) history
      → All (TopicOk (seq + 1)) history
  topics_ok-suc seq [] h = tt
  topics_ok-suc seq ((t, e) ∷ rest) h =
      ((h.0.0, h.0.1, TopicOk-suc seq e.events h.0.2), topics_ok-suc seq rest h.1)

  pub append_event-ok :
      (events : List (Event D)) (ev : Event D) (seq : ℕ)
      → is_empty ev.topic ≡ false
      → ev.seq ≤ seq
      → All (λ e. e.seq ≤ seq) events
      → TopicOk seq (ev.topic, append_event events ev)
  unfolding append_event
  append_event-ok events ev seq named new old =
      let more = events ++ ev ∷ [] in
      (
        named,
        omega (arith, length-drop (length more - history_limit) more),
        All-drop _ (length more - history_limit) more
            (All-append (λ (e : Event D). e.seq ≤ seq) events (ev ∷ []) old (new, tt)),
      )

  pub find_topic-ok :
      (P : Text × TopicHistory D → Type 0) (topic : Text) (history : List (Text × TopicHistory D))
      (entry : TopicHistory D)
      → All P history
      → find_topic topic history ≡ some entry
      → (t : Text) × P (t, entry)
  unfolding find_topic
  find_topic-ok P topic [] entry h f = absurd (ground arith)
  find_topic-ok P topic ((t, e) ∷ rest) entry h f = elim (Bool-cases (t == topic)) [
    | inl same ↦ (t, subst (λ x. P (t, x)) (ground arith) h.0)
    | inr other ↦ find_topic-ok P topic rest entry h.1 (ground arith)
  ]

  make_room-ok :
      (seq : ℕ) (history : List (Text × TopicHistory D))
      → All (TopicOk seq) history
      → All (TopicOk seq) (make_room history)
  unfolding make_room
  make_room-ok seq history h = elim (Bool-cases (leb max_topics (length history))) [
    | inl full ↦ rw full (evict_oldest-ok seq history h)
    | inr room ↦ rw room h
  ]

  make_room_bounded :
      (seq : ℕ) (history : List (Text × TopicHistory D))
      → All (TopicOk seq) history
      → length history ≤ max_topics
      → length (make_room history) < max_topics
  unfolding make_room
  make_room_bounded seq history h bound = ground (arith, evict_oldest_shorter seq history h)

  -- Recording an event that is numbered within the count keeps every history well-formed.
  pub add_event-ok :
      (found : Option (TopicHistory D)) (history : List (Text × TopicHistory D)) (ev : Event D)
      (seq : ℕ)
      → find_topic ev.topic history ≡ found
      → All (TopicOk seq) history
      → is_empty ev.topic ≡ false
      → ev.seq ≤ seq
      → All (TopicOk seq) (add_event found history ev)
  unfolding add_event
  add_event-ok none history ev seq f h named e =
      (append_event-ok [] ev seq named e tt, make_room-ok seq history h)
  add_event-ok (some entry) history ev seq f h named e =
      let (t, fits) = find_topic-ok (TopicOk seq) ev.topic history entry h f in
      (
        append_event-ok entry.events ev seq named e fits.2,
        delete_topic-ok (TopicOk seq) ev.topic history h,
      )

  -- It never makes more topics than the bound.
  pub add_event_bounded :
      (found : Option (TopicHistory D)) (history : List (Text × TopicHistory D)) (ev : Event D)
      (seq : ℕ)
      → find_topic ev.topic history ≡ found
      → All (TopicOk seq) history
      → length history ≤ max_topics
      → length (add_event found history ev) ≤ max_topics
  unfolding add_event
  add_event_bounded none history ev seq f h bound =
      omega (arith, make_room_bounded seq history h bound)
  add_event_bounded (some entry) history ev seq f h bound =
      omega (arith, length-delete_topic-lt ev.topic history entry f)
