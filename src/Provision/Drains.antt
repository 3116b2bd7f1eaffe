-- ===== src/Provision/Drains.antt =====
-- When the moving of what runs on a server ends, and what is then left on it.
use skifity.Prelude.{
  ltb, if◌then◌else◌, Bool-cases, nat_eq, ◌==◌, All, ℕ, zero, suc, ◌+◌, ◌*◌, ◌≤◌, ◌<◌, ◌≡◌, refl,
  sym, ◌∙◌, ◌⊎◌, inl, inr, Bool, true, false, not, Option, none, some, List, [], ◌∷◌, arith,
}
use skifity.Prelude.Text.{text_eq}
use skifity.Prelude.Tables.{count}
use skifity.Provision.Runner.{Failure}
use skifity.Provision.Drain.{
  Pod, stays, Eviction, Poll, Drained, second, evict_all, outstanding, wait_until_gone, enough,
  drain_evicted, drain, evicted, gone, refused, no_list, no_answer, no_context, blocked,
  timed_out_with, done, out_of_fuel,
}

-- From the start of the wait on there are at least five seconds between two answers.
abbrev pub Paced : (ℕ → Poll) → ℕ → Type 0
Paced poll now = (i : ℕ) → now + i * (5 * second) ≤ (poll i).at

abbrev pub IsRefused : (Pod → Eviction) → Pod → Type 0
IsRefused evict pod = (stays pod ≡ false) × (evict pod ≡ refused)

-- None of the pods was refused, or the one that is named was.
abbrev pub Judged : (Pod → Eviction) → List Pod → Option Pod → Type 0
Judged evict pods none = All (λ pod. IsRefused evict pod → ⊥) pods
Judged evict pods (some pod) = IsRefused evict pod

module _ (evict : Pod → Eviction) (pod : Pod) (pods : List Pod) where
  Judged-longer :
      (o : Option Pod)
      → (IsRefused evict pod → ⊥)
      → Judged evict pods o
      → Judged evict (pod ∷ pods) o
  Judged-longer none not_it h = (not_it, h)
  Judged-longer (some q) not_it h = h

  turn-Judged :
      (b : Bool) (v : Eviction) (n : ℕ) (skipping counting : Option Pod × ℕ)
      → stays pod ≡ b
      → evict pod ≡ v
      → Judged evict pods skipping.0
      → Judged evict pods counting.0
      → Judged evict
          (pod ∷ pods)
          (if◌then◌else◌ {A = Option Pod × ℕ} b skipping
            (elim v [ evicted ↦ counting | gone ↦ skipping | refused ↦ (some pod, n) ])).0
  turn-Judged true v n skipping counting b_is v_is s c =
      Judged-longer skipping.0 (λ r. stays_clash (stays pod) b_is r.0) s
    where
      stays_clash : (b : Bool) → b ≡ true → b ≡ false → ⊥
      stays_clash true e h = cc
      stays_clash false e h = cc
  turn-Judged false evicted n skipping counting b_is v_is s c =
      Judged-longer counting.0 (λ r. clashing (sym v_is ∙ r.1)) c
    where
      clashing : evicted ≡ refused → ⊥
      clashing e = cc
  turn-Judged false gone n skipping counting b_is v_is s c =
      Judged-longer skipping.0 (λ r. clashing (sym v_is ∙ r.1)) s
    where
      clashing : gone ≡ refused → ⊥
      clashing e = cc
  turn-Judged false refused n skipping counting b_is v_is s c = (b_is, v_is)

evict_all-Judged :
    (evict : Pod → Eviction) (n : ℕ) (pods : List Pod)
    → Judged evict pods (evict_all evict n pods).0
unfolding evict_all
evict_all-Judged evict n [] = tt
evict_all-Judged evict n (pod ∷ pods) =
    turn-Judged evict pod pods (stays pod) (evict pod) n (evict_all evict n pods)
      (evict_all evict (suc n) pods) refl refl (evict_all-Judged evict n pods)
      (evict_all-Judged evict (suc n) pods)

none_outstanding : (pods : List Pod) → outstanding pods ≡ 0 → All (λ pod. stays pod ≡ true) pods
unfolding outstanding count
none_outstanding [] h = tt
none_outstanding (pod ∷ pods) h = one (stays pod) (outstanding pods) (none_outstanding pods) h
  where
    one :
        (b : Bool) (n : ℕ)
        → (n ≡ 0 → All (λ pod. stays pod ≡ true) pods)
        → (if not b then suc n else n) ≡ 0
        → (b ≡ true) × All (λ pod. stays pod ≡ true) pods
    one true n f e = (refl, f e)
    one false n f e = ground (arith, e)

-- An answer with which nothing is left to wait for.
abbrev pub SeenGone : (ℕ → Poll) → Type 0
SeenGone poll =
    (i : ℕ) × (left : List Pod) × ((poll i).remaining ≡ inr left)
    × All (λ pod. stays pod ≡ true) left

abbrev pub Waited : (ℕ → Poll) → Drained → Type 0
Waited poll (done n) = SeenGone poll
Waited poll out_of_fuel = ⊥
Waited poll (blocked pod n) = ⊥
Waited poll _ = Unit {0}

module _ (poll : ℕ → Poll) (deadline moved : ℕ) where
  poll-Waited :
      (i : ℕ) (o : Failure ⊎ List Pod) (over : Option Failure) (rest : Drained)
      → (poll i).remaining ≡ o
      → (ltb deadline (poll i).at ≡ false → Waited poll rest)
      → Waited poll (elim o [
        | inl f ↦ no_answer f moved
        | inr pods ↦
            if outstanding pods == 0
            then done moved
            else if ltb deadline (poll i).at
            then timed_out_with (outstanding pods) moved
            else elim over [ some f ↦ no_context f moved | none ↦ rest ]
      ])
  poll-Waited i (inl f) over rest e h = tt
  poll-Waited i (inr pods) over rest e h = elim (Bool-cases (outstanding pods == 0)) [
    | inl z ↦ rw z (i, pods, e, none_outstanding pods (ground (arith, z)))
    | inr z ↦ elim (Bool-cases (ltb deadline (poll i).at)) [
      | inl late ↦ rw (z, late) tt
      | inr early ↦ rw (z, early) (waits over (h early))
    ]
  ]
    where
      waits :
          (o : Option Failure)
          → Waited poll rest
          → Waited poll (elim o [ some f ↦ no_context f moved | none ↦ rest ])
      waits (some f) w = tt
      waits none w = w

  wait_until_gone-Waited :
      (now fuel i : ℕ)
      → Paced poll now
      → deadline < now + (fuel + i) * (5 * second)
      → Waited poll (wait_until_gone poll deadline moved (suc fuel) i)
  unfolding wait_until_gone
  wait_until_gone-Waited now zero i paced late =
      poll-Waited i (poll i).remaining (poll i).over out_of_fuel refl
        (λ early. ground (arith, paced i, late, early))
  wait_until_gone-Waited now (suc fuel) i paced late =
      poll-Waited i (poll i).remaining (poll i).over
        (wait_until_gone poll deadline moved (suc fuel) (suc i)) refl
        (λ early. wait_until_gone-Waited now fuel (suc i) paced (omega (arith, late)))

-- What is known when the drain of a node has ended.
abbrev pub DrainEnded : Failure ⊎ List Pod → (Pod → Eviction) → (ℕ → Poll) → Drained → Type 0
DrainEnded pods evict poll (done n) =
    ((listed : List Pod) × (pods ≡ inr listed) × Judged evict listed none) × SeenGone poll
DrainEnded pods evict poll (blocked pod n) = IsRefused evict pod
DrainEnded pods evict poll out_of_fuel = ⊥
DrainEnded pods evict poll _ = Unit {0}

Waited-DrainEnded :
    (listed : List Pod) (evict : Pod → Eviction) (poll : ℕ → Poll) (d : Drained)
    → Judged evict listed none
    → Waited poll d
    → DrainEnded (inr listed) evict poll d
Waited-DrainEnded listed evict poll (no_list f) j w = tt
Waited-DrainEnded listed evict poll (no_answer f n) j w = tt
Waited-DrainEnded listed evict poll (no_context f n) j w = tt
Waited-DrainEnded listed evict poll (blocked pod n) j w = absurd w
Waited-DrainEnded listed evict poll (timed_out_with m n) j w = tt
Waited-DrainEnded listed evict poll (done n) j w = ((listed, refl, j), w)
Waited-DrainEnded listed evict poll out_of_fuel j w = absurd w

module _ (evict : Pod → Eviction) (poll : ℕ → Poll) (now : ℕ) where
  drain_evicted-DrainEnded :
      (listed : List Pod) (o : Option Pod) (moved : ℕ)
      → Paced poll now
      → Judged evict listed o
      → DrainEnded (inr listed) evict poll (drain_evicted poll now (o, moved))
  drain_evicted-DrainEnded listed none moved paced j =
      Waited-DrainEnded listed evict poll (wait_until_gone poll (now + 300 * second) moved enough 0)
        j (wait_until_gone-Waited poll (now + 300 * second) moved now 61 0 paced (omega arith))
  drain_evicted-DrainEnded listed (some pod) moved paced j = j

  -- Where there are at least five seconds between two answers of the cluster, the drain of a node
  -- ends within the fuel. Where it is done, none of the listed pods that have to move was
  -- refused, and the cluster has answered that none is left; where it is blocked, the pod that it
  -- names has to move and was refused.
  pub drain-DrainEnded :
      (pods : Failure ⊎ List Pod)
      → Paced poll now
      → DrainEnded pods evict poll (drain true pods evict poll now)
  unfolding drain
  drain-DrainEnded (inl f) paced = tt
  drain-DrainEnded (inr listed) paced =
      drain_evicted-DrainEnded listed (evict_all evict 0 listed).0 (evict_all evict 0 listed).1
        paced (evict_all-Judged evict 0 listed)
