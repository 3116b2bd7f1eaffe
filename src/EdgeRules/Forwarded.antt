-- ===== src/EdgeRules/Forwarded.antt =====
-- Nobody but a trusted proxy chooses the address that the rules judge.
use mathlib.Core.List.{reverse-append, reverse-cons, reverse-reverse, append_assoc}
use skifity.Prelude.{
  All, ◌≡◌, refl, true, false, Option, none, some, List, [], ◌∷◌, ◌++◌, reverse, arith,
}
use skifity.Prelude.Text.{Text, codes, is_empty, trim_space, split, join}
use skifity.Net.{Addr, unmap, Parsers}
use skifity.EdgeRules.ClientIp.{
  Headers, Trust, trusts, trusts_peer, header_values, x_forwarded_for, unmap_peer, walk,
  forwarded_ip, trusted_ip, client_ip, client_country,
}

reverse_middle {ℓ} :
    {A : Type ℓ} (xs ys : List A) (x : A) → reverse (xs ++ x ∷ reverse ys) ≡ ys ++ x ∷ reverse xs
reverse_middle xs ys x = simp (reverse-append, reverse-cons, reverse-reverse, append_assoc)

module _ (lib : Parsers) where
  -- A hop that reads as an address of a trusted proxy.
  abbrev pub Vouched : Trust → Text → Type 0
  Vouched trust part =
      (a : Addr) × (lib.parse_addr (trim_space part) ≡ some a) × (trusts trust (unmap a) ≡ true)

  walk-Vouched :
      (trust : Trust) (peer leftmost : Option Addr) (after rest : List Text) (part : Text)
      (a : Addr)
      → All (Vouched trust) after
      → lib.parse_addr (trim_space part) ≡ some a
      → trusts trust (unmap a) ≡ false
      → walk lib trust peer leftmost (after ++ part ∷ rest) ≡ some (unmap a)
  unfolding walk
  walk-Vouched trust peer leftmost [] rest part a h e u = rw (e, u)
  walk-Vouched trust peer leftmost (hop ∷ after) rest part a ((b, eb, tb), h) e u =
      rw (eb, tb) (walk-Vouched trust peer (some (unmap b)) after rest part a h e u)

  -- On a connection from a trusted proxy, where Cloudflare is not trusted and the X-Forwarded-For
  -- chain is not blank, the address is the nearest hop that no trusted proxy owns, when the hops
  -- after it are addresses of trusted proxies: whatever stands to its left is not read.
  pub client_ip-nearest :
      (peer : Option Addr) (headers : Headers) (trust : Trust) (before after : List Text)
      (part : Text) (a : Addr)
      → trusts_peer trust (unmap_peer peer) ≡ true
      → trust.cloudflare ≡ false
      → is_empty (trim_space (join (header_values headers x_forwarded_for) (codes ","))) ≡ false
      → split (join (header_values headers x_forwarded_for) (codes ",")) b','
        ≡ before ++ part ∷ reverse after
      → All (Vouched trust) after
      → lib.parse_addr (trim_space part) ≡ some a
      → trusts trust (unmap a) ≡ false
      → client_ip lib peer (some headers) trust ≡ some (unmap a)
  unfolding client_ip forwarded_ip
  client_ip-nearest peer headers trust before after part a ours cf full chain h e u =
      let walked : forwarded_ip lib (unmap_peer peer) headers trust ≡ some (unmap a) =
        rw (full, chain, reverse_middle before after part)
          (walk-Vouched trust (unmap_peer peer) none after (reverse before) part a h e u) in
      rw (ours, trusted_ip, walked, cf)

  -- Where the connection is not from one of our proxies the headers are not read: the address is
  -- that of the connection, and there is no country.
  pub client_ip-untrusted :
      (peer : Option Addr) (headers : Option Headers) (trust : Trust)
      → trusts_peer trust (unmap_peer peer) ≡ false
      → (client_ip lib peer headers trust ≡ unmap_peer peer)
        × (client_country peer headers trust ≡ [])
  unfolding client_ip client_country
  client_ip-untrusted peer none trust u = (refl, refl)
  client_ip-untrusted peer (some headers) trust u = (rw u, rw u (ground arith))
