-- ===== src/Naming/Objects.antt =====
-- The namespace of an environment and the objects of an app have names that a cluster accepts.
use Prim.Native.Nat.{min}
use skifity.Prelude.{
  ltb, leb, if◌then◌else◌, leb→le, length, take, length-append, All-append, ℕ, suc, ◌-◌, ◌≤◌, ◌≡◌,
  refl, Bool, true, false, ◌&&◌, [], ◌∷◌, ◌++◌, arith,
}
use skifity.Prelude.Text.{Text, codes, trim_right}
use skifity.Naming.{
  max_label_length, is_dash, is_label_byte, valid_label, joined, short_hash, slugify, namespace_for,
  resource_name,
}
use skifity.Naming.Labels.{
  AllLabelBytes, is_first_ok, LabelParts, valid_label-LabelParts, LabelParts-valid_label,
}
use skifity.Naming.Slugs.{
  IsHash, last_after, first_before, glued, cut_glued, short_hash-bytes, length-short_hash,
  short_hash-last, slugify-parts,
}

module _ (hash : Text → Text) (h : IsHash hash) where
  namespace_cut :
      (n : ℕ) (full env : Text)
      → 1 ≤ n
      → AllLabelBytes full
      → is_first_ok full ≡ true
      → AllLabelBytes env
      → n ≤ max_label_length - suc (length (env ++ b'-' ∷ short_hash hash full 6))
      → LabelParts
          (trim_right is_dash (take n full) ++ b'-' ∷ (env ++ b'-' ∷ short_hash hash full 6))
  namespace_cut n full env one bytes first env_bytes room =
      cut_glued n full (env ++ b'-' ∷ short_hash hash full 6) one bytes first
        (All-append (λ c. is_label_byte c ≡ true) env (b'-' ∷ short_hash hash full 6) env_bytes
          (refl, short_hash-bytes hash h full 6))
        (last_after env (b'-' ∷ short_hash hash full 6) (
          last_after (b'-' ∷ []) (short_hash hash full 6)
            (short_hash-last hash h full 6 (omega arith) (omega arith))))
        (omega (arith, one, room))

  namespace_step :
      (a b : Bool) (full env : Text)
      → (leb (length full) max_label_length && valid_label full) ≡ a
      → ltb (max_label_length - suc (length (env ++ b'-' ∷ short_hash hash full 6))) 1 ≡ b
      → AllLabelBytes full
      → is_first_ok full ≡ true
      → AllLabelBytes env
      → LabelParts (
          if a
          then full
          else if b
          then codes "ns-" ++ short_hash hash full 16
          else trim_right is_dash (
              take
                (min
                  (max_label_length - suc (length (env ++ b'-' ∷ short_hash hash full 6)))
                  (length full))
                full)
            ++ b'-' ∷ (env ++ b'-' ∷ short_hash hash full 6))
  namespace_step true b full env e k bytes first env_bytes =
      valid_label-LabelParts full (right (leb (length full) max_label_length) (valid_label full) e)
    where
      right : (x y : Bool) → (x && y) ≡ true → y ≡ true
      right true y q = q
      right false y q = cc
  namespace_step false true full env e k bytes first env_bytes =
      glued (codes "ns") (short_hash hash full 16) (refl, (refl, tt)) refl
        (short_hash-bytes hash h full 16)
        (short_hash-last hash h full 16 (omega arith) (omega arith))
        (omega (arith, length-short_hash hash h full 16 (omega arith)))
  namespace_step false false full env e k bytes first env_bytes =
      let room = max_label_length - suc (length (env ++ b'-' ∷ short_hash hash full 6)) in
      namespace_cut (min room (length full)) full env
        (at_least room (length full) k (filled full first)) bytes first env_bytes (omega arith)
    where
      filled : (s : Text) → is_first_ok s ≡ true → 1 ≤ length s
      filled [] q = cc
      filled (c ∷ s) q = omega arith

      at_least : (m n : ℕ) → ltb m 1 ≡ false → 1 ≤ n → 1 ≤ min m n
      at_least m n q le = ground (arith, q, le)

  pub namespace_for-parts :
      (team project env : Text)
      → LabelParts team
      → LabelParts project
      → LabelParts env
      → LabelParts (namespace_for hash team project env)
  unfolding namespace_for
  namespace_for-parts team project env t p e =
      let full = joined team project env in
      namespace_step (leb (length full) max_label_length && valid_label full)
        (ltb (max_label_length - suc (length (env ++ b'-' ∷ short_hash hash full 6))) 1) full env
        refl refl
        (All-append (λ c. is_label_byte c ≡ true) team (b'-' ∷ (project ++ b'-' ∷ env)) t.bytes
          (
            refl,
            All-append (λ c. is_label_byte c ≡ true) project (b'-' ∷ env) p.bytes (refl, e.bytes),
          ))
        (first_before team (b'-' ∷ (project ++ b'-' ∷ env)) t.first_ok) e.bytes

  resource_step :
      (a b : Bool) (app suffix : Text)
      → leb (length (app ++ b'-' ∷ suffix)) max_label_length ≡ a
      → ltb (max_label_length - length suffix - 8) 1 ≡ b
      → length suffix ≤ 54
      → LabelParts app
      → LabelParts suffix
      → LabelParts (
          if a
          then app ++ b'-' ∷ suffix
          else if b
          then short_hash hash (app ++ b'-' ∷ suffix) 16 ++ b'-' ∷ suffix
          else trim_right is_dash (take (max_label_length - length suffix - 8) app)
            ++ b'-' ∷ (short_hash hash app 6 ++ b'-' ∷ suffix))
  resource_step true b app suffix e k le p s =
      glued app suffix p.bytes p.first_ok s.bytes s.last_ok (
        omega
          (arith, length-append app (b'-' ∷ suffix), leb→le (length (app ++ b'-' ∷ suffix)) 63 e))
  resource_step false true app suffix e k le p s = absurd (too_long (length suffix) le k)
    where
      too_long : (n : ℕ) → n ≤ 54 → ltb (63 - n - 8) 1 ≡ true → ⊥
      too_long n q r = ground (arith, q, r)
  resource_step false false app suffix e k le p s =
      cut_glued (max_label_length - length suffix - 8) app (short_hash hash app 6 ++ b'-' ∷ suffix)
        (omega (arith, le)) p.bytes p.first_ok
        (All-append (λ c. is_label_byte c ≡ true) (short_hash hash app 6) (b'-' ∷ suffix)
          (short_hash-bytes hash h app 6) (refl, s.bytes))
        (last_after (short_hash hash app 6) (b'-' ∷ suffix)
          (last_after (b'-' ∷ []) suffix s.last_ok))
        (omega (
          arith,
          le,
          length-append (short_hash hash app 6) (b'-' ∷ suffix),
          length-short_hash hash h app 6 (omega arith),
        ))

  pub resource_name-parts :
      (app suffix : Text)
      → LabelParts app
      → LabelParts suffix
      → length suffix ≤ 54
      → LabelParts (resource_name hash app suffix)
  unfolding resource_name
  resource_name-parts app [] p s le = p
  resource_name-parts app (c ∷ suffix) p s le =
      resource_step (leb (length (app ++ b'-' ∷ (c ∷ suffix))) max_label_length)
        (ltb (max_label_length - length (c ∷ suffix) - 8) 1) app (c ∷ suffix) refl refl le p s

  -- Whatever text is typed for a team, a project, an environment, an app and a suffix, where the
  -- hash has the shape of one and the slug of the suffix has at most 54 bytes: the slug of the
  -- app, the namespace of the slugs and the name of the object are labels that a cluster accepts.
  pub slugs-valid_label :
      (team project env app suffix : Text)
      → length (slugify hash suffix) ≤ 54
      → (valid_label (slugify hash app) ≡ true)
        × (valid_label
              (namespace_for hash (slugify hash team) (slugify hash project) (slugify hash env))
            ≡ true)
        × (valid_label (resource_name hash (slugify hash app) (slugify hash suffix)) ≡ true)
  slugs-valid_label team project env app suffix le = (
    LabelParts-valid_label (slugify hash app) (slugify-parts hash h app),
    LabelParts-valid_label
        (namespace_for hash (slugify hash team) (slugify hash project) (slugify hash env))
        (namespace_for-parts (slugify hash team) (slugify hash project) (slugify hash env)
          (slugify-parts hash h team) (slugify-parts hash h project) (slugify-parts hash h env)),
    LabelParts-valid_label (resource_name hash (slugify hash app) (slugify hash suffix)) (
        resource_name-parts (slugify hash app) (slugify hash suffix) (slugify-parts hash h app)
          (slugify-parts hash h suffix) le),
  )
