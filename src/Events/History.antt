-- ===== src/Events/History.antt =====
-- internal/events/hub.go: the state of the hub, and what is remembered of each topic.
use skifity.Prelude.{
  ltb, leb, if◌then◌else◌, ◌==◌, nat_eq, length, drop, ℕ, ◌+◌, ◌-◌, Bool, ◌||◌, Option, none, some,
  List, [], ◌∷◌, ◌++◌,
}
use skifity.Prelude.Text.{Text, text_eq, is_empty}

module _ (D : Type 0) where
  pub record Event : Type 0 where
    pub topic : Text
    pub kind : Text
    pub seq : ℕ
    pub payload : D
    pub at : ℕ

  -- A connected client: the events in its channel, and those of its replay still to be sent.
  pub record Subscriber : Type 0 where
    pub id : ℕ
    pub queue : List Event
    pub topics : List Text
    pub dropped : ℕ
    pub pending : List Event
    pub registered : Bool
    pub closed : Bool

  pub record TopicHistory : Type 0 where
    pub events : List Event
    pub last_at : ℕ

  pub record Hub : Type 0 where
    pub subscribers : List Subscriber
    pub next_id : ℕ
    pub seq : ℕ
    pub buffer : ℕ
    pub history : List (Text × TopicHistory)
    pub in_flight : List Event
    pub panicked : Bool

abbrev pub history_limit : ℕ
history_limit = 200

-- Half an hour, in seconds.
abbrev pub history_ttl : ℕ
history_ttl = 1800

abbrev pub max_topics : ℕ
max_topics = 5000

abbrev pub default_buffer : ℕ
default_buffer = 64

module _ {D : Type 0} where
  unfoldable pub find_topic : Text → List (Text × TopicHistory D) → Option (TopicHistory D)
  find_topic topic [] = none
  find_topic topic ((t, entry) ∷ rest) = if t == topic then some entry else find_topic topic rest

  unfoldable pub delete_topic : Text → List (Text × TopicHistory D) → List (Text × TopicHistory D)
  delete_topic topic [] = []
  delete_topic topic ((t, entry) ∷ rest) =
      let kept = delete_topic topic rest in if t == topic then kept else (t, entry) ∷ kept

  -- The loop of `evictOldestLocked`, over the entries in the order that the map gives them.
  unfoldable pub oldest_topic : Text → ℕ → List (Text × TopicHistory D) → Text
  oldest_topic oldest oldest_at [] = oldest
  oldest_topic oldest oldest_at ((t, entry) ∷ rest) =
      if is_empty oldest || ltb entry.last_at oldest_at
      then oldest_topic t entry.last_at rest
      else oldest_topic oldest oldest_at rest

  unfoldable pub evict_oldest : List (Text × TopicHistory D) → List (Text × TopicHistory D)
  unfolding oldest_topic
  evict_oldest history =
      let oldest = oldest_topic [] 0 history in
      if is_empty oldest then history else delete_topic oldest history

  -- The entry of a topic with one more event, cut to the newest.
  unfoldable pub append_event : List (Event D) → Event D → TopicHistory D
  append_event events ev =
      let more = events ++ ev ∷ [] in
      record { events = drop (length more - history_limit) more; last_at = ev.at }

  unfoldable pub make_room : List (Text × TopicHistory D) → List (Text × TopicHistory D)
  make_room history = if leb max_topics (length history) then evict_oldest history else history

  unfoldable pub add_event :
      Option (TopicHistory D)
      → List (Text × TopicHistory D)
      → Event D
      → List (Text × TopicHistory D)
  add_event none history ev = (ev.topic, append_event [] ev) ∷ make_room history
  add_event (some entry) history ev =
      (ev.topic, append_event entry.events ev) ∷ delete_topic ev.topic history

  unfoldable pub record_event :
      List (Text × TopicHistory D) → Event D → List (Text × TopicHistory D)
  unfolding add_event
  record_event history ev = add_event (find_topic ev.topic history) history ev

  -- The loop of `Sweep`; `now.Sub(last_at)` is compared, so a topic of the future is kept.
  unfoldable pub sweep_topics : ℕ → List (Text × TopicHistory D) → List (Text × TopicHistory D) × ℕ
  sweep_topics now [] = ([], 0)
  sweep_topics now ((t, entry) ∷ rest) =
      let (kept, dropped) = sweep_topics now rest in
      if ltb history_ttl (now - entry.last_at)
      then (kept, dropped + 1)
      else ((t, entry) ∷ kept, dropped)
