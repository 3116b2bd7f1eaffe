-- ===== src/Prelude/BoolLaws.antt =====
-- Conditions and what follows from their values.
use skifity.Prelude.{◌≡◌, refl, sym, Bool, true, false, not, ◌&&◌}

true_ne_false : true ≡ false → ⊥
true_ne_false h = cc

pub clash {ℓ} : {G : Type ℓ} (b : Bool) → b ≡ true → b ≡ false → G
clash true e h = absurd (true_ne_false h)
clash false e h = absurd (true_ne_false (sym e))

pub both_true : (a b : Bool) → a ≡ true → b ≡ true → (a && b) ≡ true
both_true a b e h = rw (e, h) refl

pub left_true : (a b : Bool) → (a && b) ≡ true → a ≡ true
left_true true b h = refl
left_true false b h = cc

pub right_true : (a b : Bool) → (a && b) ≡ true → b ≡ true
right_true true b h = h
right_true false b h = cc

pub negation_true : (b : Bool) → not b ≡ true → b ≡ false
negation_true true h = cc
negation_true false h = refl
