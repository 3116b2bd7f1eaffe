-- ===== src/Tests/Labels.antt =====
-- Names that people type.
use skifity.Prelude.{
  length, All, ℕ, zero, suc, ◌≡◌, refl, inl, inr, true, false, [], ◌∷◌, map, arith,
}
use skifity.Prelude.Text.{
  Text, codes, has_prefix, trim_prefix, trim_suffix, contains, trim_left, trim_right, trim_space,
  split_from, split,
}
use skifity.Naming.{
  is_alphanumeric, matches_tail, matches_label, valid_label, valid_hostname, replace_bytes,
  dash_runs, slug_of, slugify, namespace_for, resource_name, hostname_with, auto_hostname,
  auto_hostname_for, key_error, sanitise_env_key, digit_first, bad_byte,
}
use skifity.Naming.Slugs.{IsHash}
use skifity.Naming.Objects.{slugs-valid_label}

-- A hash with the shape of one.
abbrev letters : ℕ → Text
letters zero = []
letters (suc n) = b'q' ∷ letters n

abbrev sample_hash : Text → Text
sample_hash t = letters 52

sample_hash-IsHash : IsHash sample_hash
sample_hash-IsHash = record { alphanumeric = λ t. letters-ok 52; length_52 = λ t. refl }
  where
    letters-ok : (n : ℕ) → All (λ c. is_alphanumeric c ≡ true) (letters n)
    letters-ok zero = tt
    letters-ok (suc n) = (refl, letters-ok n)

abbrev shop_name : Text
shop_name = codes " Tegar's  Shop! "

shop_slug : slugify sample_hash shop_name ≡ codes "tegar-s-shop"
unfolding slugify slug_of trim_space trim_left trim_right replace_bytes dash_runs
shop_slug = refl

at_sign : slugify sample_hash (codes "me@home & co") ≡ codes "me-at-home-and-co"
unfolding slugify slug_of trim_space trim_left trim_right replace_bytes dash_runs
at_sign = refl

nothing_left : slugify sample_hash (codes "!!!") ≡ codes "x-qqqqqqqq"
unfolding slugify slug_of trim_space trim_left trim_right replace_bytes dash_runs
nothing_left = refl

slugs-valid_label_example :
    (valid_label (slugify sample_hash shop_name) ≡ true)
    × (valid_label (
          namespace_for sample_hash
            (slugify sample_hash (codes "My Team"))
            (slugify sample_hash (codes "!project!"))
            (slugify sample_hash (codes "Production")))
        ≡ true)
    × (valid_label (
          resource_name sample_hash
            (slugify sample_hash shop_name)
            (slugify sample_hash (codes "hpa")))
        ≡ true)
slugs-valid_label_example =
    slugs-valid_label sample_hash sample_hash-IsHash (codes "My Team") (codes "!project!")
      (codes "Production") shop_name (codes "hpa")
      (unfold slugify slug_of trim_space trim_left trim_right replace_bytes dash_runs in
        ground arith)

-- A suffix of 63 bytes makes a name of 80.
long_suffix : length (resource_name sample_hash (codes "app") (letters 63)) ≡ 80
unfolding resource_name
long_suffix = refl

wildcard_host :
    auto_hostname sample_hash (codes "web") (codes "staging") (codes "*.apps.example.com") []
    ≡ codes "web-staging.apps.example.com"
unfolding auto_hostname hostname_with trim_prefix has_prefix trim_space trim_left trim_right
wildcard_host = refl

sslip_host :
    auto_hostname_for sample_hash
      (codes "web")
      (codes "production")
      []
      (codes "10.0.0.5")
      (codes "app_1")
    ≡ codes "web-qqqqq.10-0-0-5.sslip.io"
unfolding auto_hostname_for hostname_with replace_bytes
sslip_host = refl

hostnames :
    map valid_hostname (codes "Example.com." ∷ codes "localhost" ∷ codes "-a.com" ∷ [])
    ≡ true ∷ false ∷ false ∷ []
unfolding valid_hostname trim_suffix has_prefix trim_space trim_left trim_right contains split
    split_from matches_label matches_tail
hostnames = refl

env_keys :
    map sanitise_env_key (codes " PORT " ∷ codes "MY-VAR" ∷ codes "1X" ∷ [])
    ≡ inr (codes "PORT") ∷ inl bad_byte ∷ inl digit_first ∷ []
unfolding sanitise_env_key key_error trim_space trim_left trim_right
env_keys = refl
