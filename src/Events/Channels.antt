-- ===== src/Events/Channels.antt =====
-- What each step does to the subscribers keeps them well-formed.
use skifity.Prelude.{
  ltb, Bool-cases, ◌==◌, nat_eq, length, length-append, any, All, ℕ, ◌≡◌, refl, ap, inl, inr, false,
  ◌&&◌, List, [], ◌∷◌, arith,
}
use skifity.Prelude.Text.{Text, text_eq}
use skifity.Events.History.{Event, Subscriber}
use skifity.Events.Hub.{
  try_send, listens, deliver, sends_on_closed, replay_next, close_one, receive_one, update,
}
use skifity.Events.Ok.{SubOk}

module _ {D : Type 0} where
  pub try_send-SubOk :
      (buffer : ℕ) (ev : Event D) (s : Subscriber D)
      → SubOk buffer s
      → SubOk buffer (try_send buffer ev s)
  unfolding try_send
  try_send-SubOk buffer ev s h = ground (arith, length-append s.queue (ev ∷ []))

  pub deliver-SubOk :
      (buffer : ℕ) (ev : Event D) (subs : List (Subscriber D))
      → All (SubOk buffer) subs
      → All (SubOk buffer) (deliver buffer ev subs)
  unfolding deliver
  deliver-SubOk buffer ev [] h = tt
  deliver-SubOk buffer ev (s ∷ subs) h = (
    elim (Bool-cases (listens s ev.topic)) [
      | inl e ↦ rw e (try_send-SubOk buffer ev s h.0)
      | inr e ↦ rw e h.0
    ],
    deliver-SubOk buffer ev subs h.1,
  )

  -- A registered channel is open, so no send of a publish goes to a closed one.
  pub sends_on_closed-false :
      (buffer : ℕ) (topic : Text) (subs : List (Subscriber D))
      → All (SubOk buffer) subs
      → sends_on_closed topic subs ≡ false
  sends_on_closed-false buffer topic [] h = refl
  sends_on_closed-false buffer topic (s ∷ subs) h =
      ground (arith, h.0, sends_on_closed-false buffer topic subs h.1)

  -- What a change keeps of one subscriber it keeps of all.
  pub update-All :
      (P : Subscriber D → Type 0) (f : Subscriber D → Subscriber D) (id : ℕ)
      (subs : List (Subscriber D))
      → ((s : Subscriber D) → P s → P (f s))
      → All P subs
      → All P (update f id subs)
  unfolding update
  update-All P f id [] keep h = tt
  update-All P f id (s ∷ subs) keep h = (
    elim (Bool-cases (s.id == id)) [ inl e ↦ rw e (keep s h.0) | inr e ↦ rw e h.0 ],
    update-All P f id subs keep h.1,
  )

  pub replay_next-SubOk :
      (buffer : ℕ) (pending : List (Event D)) (s : Subscriber D)
      → s.pending ≡ pending
      → SubOk buffer s
      → SubOk buffer (replay_next buffer pending s)
  unfolding replay_next
  replay_next-SubOk buffer [] s e h = h
  replay_next-SubOk buffer (ev ∷ rest) s e h = ground (arith, length-append s.queue (ev ∷ []))

  pub close_one-SubOk :
      (buffer : ℕ) (pending : List (Event D)) (s : Subscriber D)
      → s.pending ≡ pending
      → SubOk buffer s
      → SubOk buffer (close_one pending s)
  unfolding close_one
  close_one-SubOk buffer [] s e h = ground arith
  close_one-SubOk buffer (ev ∷ rest) s e h = h

  pub receive_one-SubOk :
      (buffer : ℕ) (queue : List (Event D)) (s : Subscriber D)
      → s.queue ≡ queue
      → SubOk buffer s
      → SubOk buffer (receive_one queue s)
  unfolding receive_one
  receive_one-SubOk buffer [] s e h = h
  receive_one-SubOk buffer (ev ∷ rest) s e h = (omega (arith, ap length e, h.0), h.1)

  pub replay_on_closed-false :
      (buffer id : ℕ) (subs : List (Subscriber D))
      → All (SubOk buffer) subs
      → any (λ s. s.id == id && (s.closed && ltb 0 (length s.pending))) subs ≡ false
  replay_on_closed-false buffer id [] h = refl
  replay_on_closed-false buffer id (s ∷ subs) h =
      ground (arith, h.0, replay_on_closed-false buffer id subs h.1)
