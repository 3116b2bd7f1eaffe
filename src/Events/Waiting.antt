-- ===== src/Events/Waiting.antt =====
-- The events that have a number and wait for the lock.
use mathlib.Core.Option.{some-injective}
use skifity.Prelude.{get_elem?, All, subst, ℕ, zero, suc, ◌+◌, ◌≡◌, some, List, [], ◌∷◌, arith}
use skifity.Events.History.{Event}
use skifity.Events.Hub.{remove_at}
use skifity.Events.Ok.{Waits}

module _ {D : Type 0} where
  pub Waits-suc :
      (seq : ℕ) (events : List (Event D)) → All (Waits seq) events → All (Waits (seq + 1)) events
  Waits-suc seq [] h = tt
  Waits-suc seq (ev ∷ events) h = ((h.0.0, omega arith), Waits-suc seq events h.1)

  pub get_elem?-All :
      (P : Event D → Type 0) (events : List (Event D)) (n : ℕ) (ev : Event D)
      → All P events
      → get_elem? events n ≡ some ev
      → P ev
  get_elem?-All P [] n ev h e = cc
  get_elem?-All P (x ∷ events) zero ev h e = subst P (some-injective x ev e) h.0
  get_elem?-All P (x ∷ events) (suc n) ev h e = get_elem?-All P events n ev h.1 e

  pub remove_at-All :
      (P : Event D → Type 0) (n : ℕ) (events : List (Event D))
      → All P events
      → All P (remove_at n events)
  unfolding remove_at
  remove_at-All P n [] h = tt
  remove_at-All P zero (ev ∷ events) h = h.1
  remove_at-All P (suc n) (ev ∷ events) h = (h.0, remove_at-All P n events h.1)
