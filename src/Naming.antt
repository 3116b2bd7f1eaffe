-- ===== src/Naming.antt =====
-- internal/kube/naming.go: the names of objects in a cluster.
pub mod Labels
pub mod Cuts
pub mod Slugs
pub mod Objects
use Prim.Native.Nat.{min}
use skifity.Prelude.{
  ltb, leb, nat_beq, if◌then◌else◌, nat_eq, ◌==◌, length, take, any, all, ℕ, ◌-◌, ◌⊎◌, inl, inr,
  Bool, true, false, not, ◌&&◌, ◌||◌, Option, none, some, [], ◌∷◌, ◌++◌,
}
use skifity.Prelude.Text.{
  Text, codes, text_eq, is_empty, trim_prefix, trim_suffix, contains, trim_left, trim_right,
  trim_space, to_lower, split,
}

abbrev pub max_label_length : ℕ
max_label_length = 63

abbrev pub is_digit : ℕ → Bool
is_digit c = leb b'0' c && leb c b'9'

-- A byte of [a-z0-9], and one of [-a-z0-9].
abbrev pub is_alphanumeric : ℕ → Bool
is_alphanumeric c = leb b'a' c && leb c b'z' || is_digit c

abbrev pub is_dash : ℕ → Bool
is_dash c = nat_beq c b'-'

abbrev pub is_label_byte : ℕ → Bool
is_label_byte c = is_dash c || is_alphanumeric c

-- `([-a-z0-9]*[a-z0-9])?` to the end of the text.
unfoldable pub matches_tail : Text → Bool
matches_tail [] = true
matches_tail (c ∷ []) = is_alphanumeric c
matches_tail (c ∷ d ∷ s) = is_label_byte c && matches_tail (d ∷ s)

-- `validLabel`.
unfoldable pub matches_label : Text → Bool
unfolding matches_tail
matches_label [] = false
matches_label (c ∷ s) = is_alphanumeric c && matches_tail s

unfoldable pub valid_label : Text → Bool
unfolding matches_label
valid_label name = not (is_empty name) && (leb (length name) max_label_length && matches_label name)

unfoldable pub valid_hostname : Text → Bool
unfolding trim_suffix trim_space contains split matches_label
valid_hostname raw =
    let host = to_lower (trim_suffix (trim_space raw) (codes ".")) in
    if is_empty host || (ltb 253 (length host) || not (contains host (codes ".")))
    then false
    else if any (λ label. ltb max_label_length (length label)) (split host b'.')
    then false
    else all matches_label (split host b'.')

-- The separators that are spelled out before everything else is discarded.
abbrev pub replace_byte : ℕ → Text
replace_byte c =
    if nat_beq c b'_' || (nat_beq c b' ' || (nat_beq c b'.' || nat_beq c b'/'))
    then codes "-"
    else if nat_beq c b'@'
    then codes "-at-"
    else if nat_beq c b'&'
    then codes "-and-"
    else c ∷ []

unfoldable pub replace_bytes : (ℕ → Text) → Text → Text
replace_bytes f [] = []
replace_bytes f (c ∷ s) = f c ++ replace_bytes f s

-- `nonAlphanumeric.ReplaceAllString(s, "-")`, and whether a run is being read.
unfoldable pub dash_runs : Bool → Text → Text
dash_runs reading [] = []
dash_runs reading (c ∷ s) =
    let rest = dash_runs false s in
    let skipped = dash_runs true s in
    if is_alphanumeric c then c ∷ rest else if reading then skipped else b'-' ∷ skipped

unfoldable pub slug_of : Text → Text
unfolding trim_space replace_bytes dash_runs trim_left trim_right
slug_of input =
    trim_right is_dash (
      trim_left is_dash
        (dash_runs false (replace_bytes replace_byte (to_lower (trim_space input)))))

abbrev pub starts_well : Text → Bool
starts_well [] = false
starts_well (c ∷ s) = is_alphanumeric c || (leb b'A' c && leb c b'Z')

abbrev pub joined : Text → Text → Text → Text
joined team project env = team ++ b'-' ∷ (project ++ b'-' ∷ env)

abbrev pub host_label : Text → Text → Text → Text
host_label app env discriminator =
    let label =
      if not (is_empty env) && not (env == codes "production") then app ++ b'-' ∷ env else app in
    if is_empty discriminator then label else label ++ b'-' ∷ discriminator

abbrev pub dot_to_dash : ℕ → Text
dot_to_dash c = if nat_beq c b'.' then codes "-" else c ∷ []

-- `hash` is the lower-case base32 of a text's SHA-256.
module _ (hash : Text → Text) where
  abbrev pub short_hash : Text → ℕ → Text
  short_hash input n = take n (hash input)

  abbrev pub shortened : Text → Text → Text
  shortened input slug =
      if ltb max_label_length (length slug)
      then trim_right is_dash (take (max_label_length - 9) slug) ++ b'-' ∷ short_hash input 8
      else slug

  unfoldable pub slugify : Text → Text
  unfolding slug_of trim_right
  slugify input =
      let slug = slug_of input in
      if is_empty slug
      then codes "x-" ++ short_hash input 8
      else let name = shortened input slug in if not (starts_well name) then b'x' ∷ name else name

  unfoldable pub namespace_for : Text → Text → Text → Text
  unfolding valid_label trim_right
  namespace_for team project env =
      let full = joined team project env in
      let suffix = b'-' ∷ (env ++ b'-' ∷ short_hash full 6) in
      let room = max_label_length - length suffix in
      if leb (length full) max_label_length && valid_label full
      then full
      else if ltb room 1
      then codes "ns-" ++ short_hash full 16
      else trim_right is_dash (take (min room (length full)) full) ++ suffix

  unfoldable pub resource_name : Text → Text → Text
  unfolding trim_right
  resource_name app suffix =
      let name = app ++ b'-' ∷ suffix in
      let keep = max_label_length - length suffix - 8 in
      if is_empty suffix
      then app
      else if leb (length name) max_label_length
      then name
      else if ltb keep 1
      then short_hash name 16 ++ b'-' ∷ suffix
      else trim_right is_dash (take keep app) ++ b'-' ∷ (short_hash app 6 ++ b'-' ∷ suffix)

  abbrev pub short_label : Text → Text
  short_label label =
      if ltb max_label_length (length label)
      then trim_right is_dash (take (max_label_length - 7) label) ++ b'-' ∷ short_hash label 6
      else label

  unfoldable pub hostname_with : Text → Text → Text → Text → Text → Text
  unfolding trim_prefix trim_space trim_right replace_bytes
  hostname_with app env wildcard cluster_ip discriminator =
      let label = short_label (host_label app env discriminator) in
      if not (is_empty wildcard)
      then label ++ b'.' ∷ trim_prefix (trim_space wildcard) (codes "*.")
      else if is_empty cluster_ip
      then []
      else label ++ b'.' ∷ (replace_bytes dot_to_dash cluster_ip ++ codes ".sslip.io")

  unfoldable pub auto_hostname : Text → Text → Text → Text → Text
  unfolding hostname_with
  auto_hostname app env wildcard cluster_ip = hostname_with app env wildcard cluster_ip []

  unfoldable pub auto_hostname_for : Text → Text → Text → Text → Text → Text
  unfolding hostname_with
  auto_hostname_for app env wildcard cluster_ip app_id =
      hostname_with app env wildcard cluster_ip (short_hash app_id 5)

pub data KeyError : Type 0 where
  empty_key long_key digit_first bad_byte : KeyError

-- The loop over the key, and whether its first byte is being read.
unfoldable pub key_error : Bool → Text → Option KeyError
key_error first [] = none
key_error first (c ∷ s) =
    let rest = key_error false s in
    if (leb b'A' c && leb c b'Z') || nat_beq c b'_'
    then rest
    else if leb b'a' c && leb c b'z'
    then rest
    else if is_digit c
    then if first then some digit_first else rest
    else some bad_byte

unfoldable pub sanitise_env_key : Text → KeyError ⊎ Text
unfolding trim_space key_error
sanitise_env_key raw =
    let key = trim_space raw in
    if is_empty key
    then inl empty_key
    else if ltb 256 (length key)
    then inl long_key
    else elim (key_error true key) [ none ↦ inr key | some e ↦ inl e ]
