-- ===== src/Guard/Laws.antt =====
-- What the guard keeps when a reload fails, and what an outsider cannot choose.
use skifity.Prelude.{
  if◌then◌else◌, nat_eq, ◌==◌, ℕ, ◌≡◌, refl, ap, ◌∙◌, ◌⊎◌, inl, inr, Bool, true, false, ◌&&◌,
  Option, none, some, [], ◌∷◌, ◌++◌, arith,
}
use skifity.Prelude.BoolLaws.{left_true, right_true}
use skifity.Prelude.Text.{Text, codes, first_non_empty, is_empty, cut, join}
use skifity.Net.{Addr, unmap, Parsers, v4, v6}
use skifity.EdgeRules.ClientIp.{Trust, trusts_peer, unmap_peer, default_proxies, parse_proxies}
use skifity.EdgeRules.Forwarded.{client_ip-untrusted}
use skifity.Guard.{
  Config, Guard, ReloadError, RulesFile, HttpRequest, header_set, hostname, forwarded_by_a_proxy,
  path_of, install, trust_of, reload, cannot_stat, cannot_read, not_readable, peer_addr,
  judged_host, described,
}

-- What serves after a reload that did not fail: the guard as it was, if it has rules and the file
-- is as old as they are, or the rules that the file holds, all of them and with their proxies.
abbrev pub Installed : Parsers → (Text → Option Config) → Guard → RulesFile → Guard → Type 0
Installed lib unmarshal g file after =
    ((after ≡ g) × (g.loaded ≡ true) × (file.stat ≡ some g.mod_time))
    ⊎ ((time : ℕ) × (raw : Text) × (config : Config) × (file.stat ≡ some time)
        × (file.read ≡ some raw)
        × (unmarshal raw ≡ some config)
        × (after.opts ≡ g.opts)
        × (after.config ≡ config)
        × (after.trust.proxies
            ≡ default_proxies lib g.opts.pod_cidr g.opts.service_cidr
              ++ parse_proxies lib (join config.trusted_proxies (codes ",")))
        × (after.trust.cloudflare ≡ config.cloudflare)
        × (after.loaded ≡ true)
        × (after.mod_time ≡ time))

-- What a reload leaves, with its error or without one.
abbrev pub Reloaded :
    Parsers → (Text → Option Config) → Guard → RulesFile → Guard × Option ReloadError → Type 0
Reloaded lib unmarshal g file (after, some e) = after ≡ g
Reloaded lib unmarshal g file (after, none) = Installed lib unmarshal g file after

module _ (lib : Parsers) (unmarshal : Text → Option Config) where
  install-Reloaded :
      (g : Guard) (file : RulesFile) (time : ℕ) (raw : Text) (o : Option Config)
      → file.stat ≡ some time
      → file.read ≡ some raw
      → unmarshal raw ≡ o
      → Reloaded lib unmarshal g file (elim o [
        | none ↦ (g, some not_readable)
        | some config ↦ (
          record g {
            config = config;
            trust = trust_of lib unmarshal g.opts config;
            loaded = true;
            mod_time = time;
          },
          none,
        )
      ])
  unfolding trust_of
  install-Reloaded g file time raw none s r u = refl
  install-Reloaded g file time raw (some config) s r u =
      inr (time, raw, config, s, r, u, refl, refl, refl, refl, refl, refl)

  read-Reloaded :
      (g : Guard) (file : RulesFile) (time : ℕ) (o : Option Text)
      → file.stat ≡ some time
      → file.read ≡ o
      → Reloaded lib unmarshal g file
          (elim o [ none ↦ (g, some cannot_read) | some raw ↦ install lib unmarshal g time raw ])
  unfolding install
  read-Reloaded g file time none s r = refl
  read-Reloaded g file time (some raw) s r =
      install-Reloaded g file time raw (unmarshal raw) s r refl

  same-Reloaded :
      (g : Guard) (file : RulesFile) (time : ℕ) (b : Bool)
      → file.stat ≡ some time
      → (g.loaded && time == g.mod_time) ≡ b
      → Reloaded lib unmarshal g file (
          if b then (g, none) else elim file.read [
            | none ↦ (g, some cannot_read)
            | some raw ↦ install lib unmarshal g time raw
          ])
  same-Reloaded g file time true s e =
      inl (refl, left_true g.loaded (time == g.mod_time) e, s ∙ ap some (same_time e))
    where
      same_time : (g.loaded && time == g.mod_time) ≡ true → time ≡ g.mod_time
      same_time h = ground (arith, right_true g.loaded (time == g.mod_time) h)
  same-Reloaded g file time false s e = read-Reloaded g file time file.read s refl

  stat-Reloaded :
      (g : Guard) (file : RulesFile) (o : Option ℕ)
      → file.stat ≡ o
      → Reloaded lib unmarshal g file (elim o [
        | none ↦ (g, some cannot_stat)
        | some time ↦ if g.loaded && time == g.mod_time then (g, none) else elim file.read [
          | none ↦ (g, some cannot_read)
          | some raw ↦ install lib unmarshal g time raw
        ]
      ])
  stat-Reloaded g file none s = refl
  stat-Reloaded g file (some time) s =
      same-Reloaded g file time (g.loaded && time == g.mod_time) s refl

  -- A reload that fails at any step leaves the guard as it was. One that does not fail leaves it
  -- as it was only where it has rules and the file is as old as they are; otherwise the guard
  -- keeps its options and has the configuration that the file holds, the proxies that the options
  -- and the configuration name, what the configuration says of Cloudflare, the age of the file,
  -- and is ready.
  pub reload_outcome :
      (g : Guard) (file : RulesFile) → Reloaded lib unmarshal g file (reload lib unmarshal g file)
  unfolding reload
  reload_outcome g file = stat-Reloaded g file file.stat refl

unmap_idem : (a : Addr) → unmap (unmap a) ≡ unmap a
unfolding unmap
unmap_idem (v4 n) = refl
unmap_idem (v6 n zone) = ground arith

unmap_peer_idem : (a : Option Addr) → unmap_peer (unmap_peer a) ≡ unmap_peer a
unmap_peer_idem none = refl
unmap_peer_idem (some a) = rw (unmap_idem a)

forwarded-untrusted :
    (r : HttpRequest) (name : Text) (peer : Option Addr) (trust : Trust)
    → trusts_peer trust peer ≡ false
    → forwarded_by_a_proxy r name peer trust ≡ []
unfolding forwarded_by_a_proxy
forwarded-untrusted r name peer trust u = rw u

-- A path as it was asked for, without its query; no path is the root.
abbrev pub asked_path : Text → Text
asked_path uri = let (before, _, _) = cut uri b'?' in if is_empty before then b'/' ∷ [] else before

module _ (lib : Parsers) where
  first_non_empty_two : (host : Text) → first_non_empty ([] ∷ host ∷ []) ≡ host
  first_non_empty_two [] = refl
  first_non_empty_two (c ∷ s) = refl

  unmap_peer-peer_addr : (r : HttpRequest) → unmap_peer (peer_addr lib r) ≡ peer_addr lib r
  unfolding peer_addr
  unmap_peer-peer_addr r = unmap_peer_idem _

  -- A connection that is from none of our proxies is judged by what it is: its own address, the
  -- host and the method that it asked for, the path that it asked for without its query, and no
  -- country, whatever it says in its headers.
  pub described-untrusted :
      (g : Guard) (r : HttpRequest)
      → trusts_peer g.trust (peer_addr lib r) ≡ false
      → let req = described lib g r in
        (req.address ≡ peer_addr lib r)
        × (req.country_code ≡ [])
        × (req.host_name ≡ hostname r.host)
        × (req.url_path ≡ asked_path r.url_path)
        × (req.http_method ≡ r.method)
  unfolding described judged_host path_of
  described-untrusted g r u =
      let same = unmap_peer-peer_addr r in
      let u' : trusts_peer g.trust (unmap_peer (peer_addr lib r)) ≡ false = rw same u in
      let ignored = client_ip-untrusted lib (peer_addr lib r) (some (header_set r)) g.trust u' in
      let host = forwarded-untrusted r (codes "X-Forwarded-Host") (peer_addr lib r) g.trust u in
      let uri = forwarded-untrusted r (codes "X-Forwarded-Uri") (peer_addr lib r) g.trust u in
      let verb = forwarded-untrusted r (codes "X-Forwarded-Method") (peer_addr lib r) g.trust u in
      (
        ignored.0 ∙ same,
        ignored.1,
        rw (host, first_non_empty_two r.host),
        rw (uri, first_non_empty_two r.url_path),
        rw (verb, first_non_empty_two r.method),
      )
