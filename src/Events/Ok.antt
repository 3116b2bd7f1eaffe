-- ===== src/Events/Ok.antt =====
-- When a subscriber and a topic's history are well-formed.
use skifity.Prelude.{length, All, ℕ, ◌≤◌, ◌≡◌, true, false, []}
use skifity.Prelude.Text.{Text, is_empty}
use skifity.Events.History.{Event, Subscriber, TopicHistory, history_limit}

module _ {D : Type 0} where
  -- A channel within its capacity; once closed, out of the map and with nothing left to replay.
  abbrev pub SubOk : ℕ → Subscriber D → Type 0
  SubOk buffer s =
      (length s.queue ≤ buffer) × (s.closed ≡ true → (s.registered ≡ false) × (s.pending ≡ []))

  -- A topic has a name, and at most the newest events, none numbered above the counter.
  abbrev pub TopicOk : ℕ → Text × TopicHistory D → Type 0
  TopicOk seq entry =
      (is_empty entry.0 ≡ false)
      × (length entry.1.events ≤ history_limit)
      × All (λ ev. ev.seq ≤ seq) entry.1.events

  -- An event that has its number and waits for the lock.
  abbrev pub Waits : ℕ → Event D → Type 0
  Waits seq ev = (is_empty ev.topic ≡ false) × (ev.seq ≤ seq)
