-- ===== src/Events/Sweep.antt =====
-- Which topics a sweep drops, and how many it reports.
use skifity.Prelude.{
  ltb, Bool-cases, length, filter, All, ℕ, ◌+◌, ◌-◌, ◌≡◌, refl, inl, inr, Bool, not, List, [], ◌∷◌,
  arith,
}
use skifity.Prelude.Text.{Text}
use skifity.Events.History.{TopicHistory, Hub, history_ttl, sweep_topics}
use skifity.Events.Hub.{sweep, topic_count}

module _ {D : Type 0} where
  pub sweep_topics-ok :
      (P : Text × TopicHistory D → Type 0) (now : ℕ) (history : List (Text × TopicHistory D))
      → All P history
      → All P (sweep_topics now history).0
  unfolding sweep_topics
  sweep_topics-ok P now [] h = tt
  sweep_topics-ok P now ((t, e) ∷ rest) h = elim (Bool-cases (ltb history_ttl (now - e.last_at))) [
    | inl old ↦ rw old (sweep_topics-ok P now rest h.1)
    | inr fresh ↦ rw fresh (h.0, sweep_topics-ok P now rest h.1)
  ]

  pub length-sweep_topics :
      (now : ℕ) (history : List (Text × TopicHistory D))
      → length (sweep_topics now history).0 + (sweep_topics now history).1 ≡ length history
  unfolding sweep_topics
  length-sweep_topics now [] = omega arith
  length-sweep_topics now ((t, e) ∷ rest) = ground (arith, length-sweep_topics now rest)

  abbrev pub is_fresh : ℕ → Text × TopicHistory D → Bool
  is_fresh now entry = not (ltb history_ttl (now - entry.1.last_at))

  kept-sweep_topics :
      (now : ℕ) (history : List (Text × TopicHistory D))
      → (sweep_topics now history).0 ≡ filter (is_fresh now) history
  unfolding sweep_topics
  kept-sweep_topics now [] = refl
  kept-sweep_topics now ((t, e) ∷ rest) = ground (arith, kept-sweep_topics now rest)

  -- A sweep keeps exactly the topics that heard something within the last half hour, in their
  -- order, reports how many it dropped, and changes nothing else of the hub.
  pub sweep_exact :
      (h : Hub D) (now : ℕ)
      → let (after, dropped) = sweep h now in
        (after.history ≡ filter (is_fresh now) h.history)
        × (topic_count after + dropped ≡ topic_count h)
        × (record after { history = h.history } ≡ h)
  unfolding sweep topic_count
  sweep_exact h now = (kept-sweep_topics now h.history, length-sweep_topics now h.history, refl)
