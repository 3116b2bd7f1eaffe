-- ===== src/Provision/Drain.antt =====
-- internal/provision/remove.go: moving what runs on a server off it. What the cluster answers is a
-- parameter: to each eviction, and to each time that it is asked what is left.
use skifity.Prelude.{
  ltb, if◌then◌else◌, nat_eq, ◌==◌, any, ℕ, zero, suc, ◌+◌, ◌*◌, ◌⊎◌, inl, inr, Bool, not, ◌||◌,
  Option, none, some, List, [], ◌∷◌,
}
use skifity.Prelude.Text.{Text, codes, text_eq}
use skifity.Prelude.Tables.{count}
use skifity.Provision.Runner.{Failure}

pub record Pod : Type 0 where
  pub name : Text
  pub namespace : Text
  pub owner_kinds : List Text
  pub annotations : List Text

unfoldable pub is_daemon_set_pod : Pod → Bool
is_daemon_set_pod pod = any (λ kind. kind == codes "DaemonSet") pod.owner_kinds

unfoldable pub is_mirror_pod : Pod → Bool
is_mirror_pod pod = any (λ key. key == codes "kubernetes.io/config.mirror") pod.annotations

abbrev pub stays : Pod → Bool
stays pod = is_daemon_set_pod pod || is_mirror_pod pod

pub data Eviction : Type 0 where
  evicted gone refused : Eviction

-- Asking what is left: the answer, when it was given, and what ended the context, if it was over
-- before the time came to ask again.
pub record Poll : Type 0 where
  pub remaining : Failure ⊎ List Pod
  pub at : ℕ
  pub over : Option Failure

-- How the drain ends. A number is that of the pods that were evicted.
pub data Drained : Type 0 where
  no_list : Failure → Drained
  no_answer no_context : Failure → ℕ → Drained
  blocked : Pod → ℕ → Drained
  timed_out_with : ℕ → ℕ → Drained
  done : ℕ → Drained
  out_of_fuel : Drained

abbrev pub second : ℕ
second = 1000000000

-- `gone` is a pod that is not found.
unfoldable pub evict_all : (Pod → Eviction) → ℕ → List Pod → Option Pod × ℕ
unfolding is_daemon_set_pod is_mirror_pod
evict_all evict count [] = (none, count)
evict_all evict count (pod ∷ pods) =
    let skipping = evict_all evict count pods in
    let counting = evict_all evict (suc count) pods in
    if stays pod
    then skipping
    else elim (evict pod) [ evicted ↦ counting | gone ↦ skipping | refused ↦ (some pod, count) ]

unfoldable pub outstanding : List Pod → ℕ
unfolding is_daemon_set_pod is_mirror_pod count
outstanding pods = count (λ pod. not (stays pod)) pods

-- The loop. The polls are numbered.
unfoldable pub wait_until_gone : (ℕ → Poll) → ℕ → ℕ → ℕ → ℕ → Drained
unfolding outstanding
wait_until_gone poll deadline moved zero i = out_of_fuel
wait_until_gone poll deadline moved (suc fuel) i =
    let rest = wait_until_gone poll deadline moved fuel (suc i) in
    elim (poll i).remaining [
      | inl f ↦ no_answer f moved
      | inr pods ↦
          if outstanding pods == 0
          then done moved
          else if ltb deadline (poll i).at
          then timed_out_with (outstanding pods) moved
          else elim (poll i).over [ some f ↦ no_context f moved | none ↦ rest ]
    ]

-- Every five seconds, for five minutes.
abbrev pub enough : ℕ
enough = 62

abbrev pub drain_evicted : (ℕ → Poll) → ℕ → Option Pod × ℕ → Drained
drain_evicted poll now (some pod, moved) = blocked pod moved
drain_evicted poll now (none, moved) = wait_until_gone poll (now + 300 * second) moved enough 0

-- A server that is not a node of a cluster has nothing to move. `now` is when the wait begins.
unfoldable pub drain : Bool → Failure ⊎ List Pod → (Pod → Eviction) → (ℕ → Poll) → ℕ → Drained
unfolding evict_all wait_until_gone
drain is_node pods evict poll now = if not is_node then done 0 else elim pods [
  | inl f ↦ no_list f
  | inr listed ↦ drain_evicted poll now (evict_all evict 0 listed)
]
