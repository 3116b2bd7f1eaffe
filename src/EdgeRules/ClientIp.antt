-- ===== src/EdgeRules/ClientIp.antt =====
-- internal/edgerules/clientip.go: whose address and country the rules judge.
use skifity.Prelude.{
  if◌then◌else◌, ◌==◌, nat_eq, any, ℕ, ◌*◌, ◌^◌, Bool, false, not, ◌&&◌, ◌||◌, Option, none, some,
  List, [], ◌∷◌, ◌++◌, reverse,
}
use skifity.Prelude.Text.{
  Text, codes, text_eq, is_empty, trim_space, to_upper, split, fields_func, fields, join,
}
use skifity.Net.{Addr, Prefix, bit_len, unmap, prefix_contains, Parsers, v4, v6}
use skifity.EdgeRules.Validate.{is_country_code}

-- A `Headers` that answers with one value, or a `MultiHeaders` that answers with all.
pub data Headers : Type 0 where
  single : (Text → Text) → Headers
  multi : (Text → List Text) → Headers

pub record Trust : Type 0 where
  pub proxies : List Prefix
  pub cloudflare : Bool

unfoldable pub in_prefix : Addr → Prefix → Bool
unfolding unmap prefix_contains
in_prefix a p = bit_len (unmap p.addr) == bit_len a && prefix_contains p a

unfoldable pub trusts : Trust → Addr → Bool
unfolding in_prefix
trusts t a = any (in_prefix (unmap a)) t.proxies

-- An address that is not valid is in no range.
abbrev pub trusts_peer : Trust → Option Addr → Bool
trusts_peer t none = false
trusts_peer t (some a) = trusts t a

unfoldable pub header_values : Headers → Text → List Text
header_values (multi values) name = values name
header_values (single get) name = if is_empty (get name) then [] else get name ∷ []

abbrev last_or_empty : List Text → Text
last_or_empty [] = []
last_or_empty (v ∷ []) = v
last_or_empty (v ∷ w ∷ vs) = last_or_empty (w ∷ vs)

unfoldable pub last_header_value : Headers → Text → Text
unfolding header_values trim_space
last_header_value headers name = trim_space (last_or_empty (header_values headers name))

abbrev pub x_forwarded_for : Text
x_forwarded_for = codes "X-Forwarded-For"

abbrev pub cf_connecting_ip : Text
cf_connecting_ip = codes "CF-Connecting-IP"

abbrev pub cf_ip_country : Text
cf_ip_country = codes "CF-IPCountry"

abbrev pub unmap_peer : Option Addr → Option Addr
unmap_peer none = none
unmap_peer (some a) = some (unmap a)

abbrev parsed : Option Prefix → List Prefix
parsed none = []
parsed (some p) = p ∷ []

module _ (lib : Parsers) where
  -- The loop over the chain from the right: `parts` are those still to be read, nearest first.
  unfoldable pub walk : Trust → Option Addr → Option Addr → List Text → Option Addr
  walk trust peer leftmost [] = elim leftmost [ none ↦ peer | some a ↦ some a ]
  walk trust peer leftmost (part ∷ parts) = elim (lib.parse_addr (trim_space part)) [
    | none ↦ peer
    | some a ↦
        let rest = walk trust peer (some (unmap a)) parts in
        if trusts trust (unmap a) then rest else some (unmap a)
  ]

  unfoldable pub forwarded_ip : Option Addr → Headers → Trust → Option Addr
  unfolding walk
  forwarded_ip peer headers trust =
      let forwarded = join (header_values headers x_forwarded_for) (codes ",") in
      if is_empty (trim_space forwarded)
      then peer
      else walk trust peer none (reverse (split forwarded b','))

  -- `peer` is unmapped and trusted here.
  unfoldable pub trusted_ip : Option Addr → Headers → Trust → Option Addr
  trusted_ip peer headers trust =
      let forwarded = forwarded_ip peer headers trust in
      if trust.cloudflare
      then elim (lib.parse_addr (last_header_value headers cf_connecting_ip)) [
        | none ↦ forwarded
        | some a ↦ some (unmap a)
      ]
      else forwarded

  unfoldable pub client_ip : Option Addr → Option Headers → Trust → Option Addr
  unfolding trusted_ip
  client_ip peer none trust = unmap_peer peer
  client_ip peer (some headers) trust =
      if trusts_peer trust (unmap_peer peer)
      then trusted_ip (unmap_peer peer) headers trust
      else unmap_peer peer

  unfoldable pub default_proxies : Text → Text → List Prefix
  default_proxies pod_cidr service_cidr =
      record { addr = v4 (127 * 2 ^ 24); bits = 8 }
      ∷ record { addr = v6 1 []; bits = 128 }
      ∷ (parsed (lib.parse_prefix (trim_space pod_cidr))
          ++ parsed (lib.parse_prefix (trim_space service_cidr)))

  proxy_entry : Text → List Prefix
  proxy_entry field = elim (lib.parse_prefix field) [
    | some p ↦ p ∷ []
    | none ↦ elim (lib.parse_addr field) [
      | some a ↦ record { addr = a; bits = bit_len a } ∷ []
      | none ↦ []
    ]
  ]

  entries : List Text → List Prefix
  entries [] = []
  entries (field ∷ fields) = proxy_entry field ++ entries fields

  abbrev is_proxy_separator : ℕ → Bool
  is_proxy_separator c = c == b',' || (c == 32 || (c == 10 || c == 9))

  unfoldable pub parse_proxies : Text → List Prefix
  unfolding entries proxy_entry fields_func
  parse_proxies value = entries (fields_func value is_proxy_separator)

abbrev is_no_country : Text → Bool
is_no_country name = name == codes "XX" || name == codes "T1"

unfoldable pub client_country : Option Addr → Option Headers → Trust → Text
client_country peer none trust = []
client_country peer (some headers) trust =
    let name = to_upper (last_header_value headers cf_ip_country) in
    if not trust.cloudflare || not (trusts_peer trust (unmap_peer peer))
    then []
    else if not (is_country_code name) || is_no_country name
    then []
    else name
