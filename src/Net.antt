-- ===== src/Net.antt =====
-- The part of package net/netip that the program uses: addresses, ranges and membership.
-- The parsers of addresses, ranges and regular expressions enter as a record of functions.
use skifity.Prelude.{
  leb, if◌then◌else◌, ◌==◌, nat_eq, ℕ, ◌-◌, ◌/◌, ◌%◌, ◌^◌, ◌≡◌, refl, Bool, false, not, ◌&&◌, ◌||◌,
  Option, none, some, [], ◌∷◌, reverse,
}
use skifity.Prelude.Text.{Text, codes, text_eq, is_empty, contains_byte, cut}

-- An address is its bits as a number; an IPv6 address may carry a zone.
pub data Addr : Type 0 where
  v4 : ℕ → Addr
  v6 : ℕ → Text → Addr

pub record Prefix : Type 0 where
  pub addr : Addr
  pub bits : ℕ

abbrev pub bit_len : Addr → ℕ
bit_len (v4 _) = 32
bit_len (v6 _ _) = 128

-- `Addr.Unmap`: ::ffff:a.b.c.d is a.b.c.d.
unfoldable pub unmap : Addr → Addr
unmap (v4 n) = v4 n
unmap (v6 n zone) = if (n / 2 ^ 32) == 0xffff then v4 (n % 2 ^ 32) else v6 n zone

abbrev pub addr_eq : Addr → Addr → Bool
addr_eq (v4 a) (v4 b) = a == b
addr_eq (v6 a z) (v6 b y) = a == b && z == y
addr_eq _ _ = false

-- `Prefix.Contains`: the leading bits agree; no address with a zone is in a range.
unfoldable pub prefix_contains : Prefix → Addr → Bool
prefix_contains p a = elim p.addr [
  | v4 n ↦ elim a [
    | v4 m ↦ leb p.bits 32 && (n / 2 ^ (32 - p.bits)) == (m / 2 ^ (32 - p.bits))
    | v6 _ _ ↦ false
  ]
  | v6 n _ ↦ elim a [
    | v4 _ ↦ false
    | v6 m zone ↦
        is_empty zone && (leb p.bits 128 && (n / 2 ^ (128 - p.bits)) == (m / 2 ^ (128 - p.bits)))
  ]
]

plain_host : Text → Option Text
plain_host s =
    let (_, rest, found) = cut (reverse s) b':' in
    let host = reverse rest in
    if found && not (contains_byte host b':' || (contains_byte s b'[' || contains_byte s b']'))
    then some host
    else none

bracketed_host : Text → Option Text
bracketed_host s =
    let (inside, after, found) = cut s b']' in
    elim after [
      | [] ↦ none
      | c ∷ port ↦
          if found
            && c == b':'
            && not (
                contains_byte port b':'
                || (contains_byte inside b'['
                    || (contains_byte port b'[' || contains_byte port b']')))
          then some inside
          else none
    ]

-- The host of `net.SplitHostPort`, or `none` for its error.
unfoldable pub split_host : Text → Option Text
unfolding plain_host bracketed_host cut contains_byte
split_host [] = none
split_host (c ∷ s) = if c == b'[' then bracketed_host s else plain_host (c ∷ s)

split_host_example : split_host (codes "a.io:80") ≡ some (codes "a.io")
unfolding split_host
split_host_example = refl

-- What the rules ask of the standard library's parsers.
pub record Parsers : Type 0 where
  pub parse_addr : Text → Option Addr
  pub parse_prefix : Text → Option Prefix
  pub compile : Text → Option (Text → Bool)
