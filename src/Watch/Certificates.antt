-- ===== src/Watch/Certificates.antt =====
-- A second look at a certificate that answers the same changes nothing.
use skifity.Prelude.{nat_eq}
use skifity.Prelude.{
  if◌then◌else◌, Bool-cases, Option-cases, ◌==◌, list_beq_iff, length, ◌≡◌, refl, sym, ap, subst,
  ◌∙◌, inl, inr, Bool, true, false, not, ◌||◌, none, some, List, [], ◌∷◌, arith,
}
use skifity.Prelude.Text.{Text, codes, text_eq}
use skifity.Watch.Types.{Domain, App, CertificateState, Answers, Watcher}
use skifity.Watch.Apps.{
  secured, stale, certificate_status, set_domain, set_domains, domain_messages, record_certificate,
  check_certificate,
}

module _ (w : Watcher) (a : Answers) (written : (id : Text) → a.write id ≡ true) where
  set_domain-settled :
      (status reason : Text) (d : Domain)
      → set_domain a status reason (set_domain a status reason d).0
        ≡ ((set_domain a status reason d).0, false)
  unfolding set_domain
  set_domain-settled status reason d =
      ground (arith, written d.id, (list_beq_iff status status).1 refl)

  set_domains-settled :
      (status reason : Text) (ds : List Domain)
      → (set_domains a status reason (set_domains a status reason ds).0).1 ≡ false
  unfolding set_domains
  set_domains-settled status reason [] = refl
  set_domains-settled status reason (d ∷ ds) =
      rw (set_domain-settled status reason d, set_domains-settled status reason ds)

  set_domain-kept :
      (status reason : Text) (d : Domain)
      → let e = (set_domain a status reason d).0 in (e.tls ≡ d.tls) × (e.created_at ≡ d.created_at)
  unfolding set_domain
  set_domain-kept status reason d = ground (arith, written d.id)

  stale-set_domains :
      (status reason : Text) (ds : List Domain)
      → (stale a.now (secured (set_domains a status reason ds).0) ≡ stale a.now (secured ds))
        × (length (secured (set_domains a status reason ds).0) ≡ length (secured ds))
  unfolding set_domains stale
  stale-set_domains status reason [] = (refl, refl)
  stale-set_domains status reason (d ∷ ds) =
      let kept = set_domain-kept status reason d in
      let rest = stale-set_domains status reason ds in
      ground (arith, kept.0, kept.1, rest.0, rest.1)

  certificate_status-set_domains :
      (state : CertificateState) (status reason : Text) (ds : List Domain)
      → certificate_status a state (secured (set_domains a status reason ds).0)
        ≡ certificate_status a state (secured ds)
  unfolding certificate_status
  certificate_status-set_domains state status reason ds =
      ap
        (λ b. if state.ready then codes "active" else if b then codes "failed" else codes "pending")
        (stale-set_domains status reason ds).0

  -- The domains once they have the status that the certificate gives them.
  abbrev recorded : App → CertificateState → App
  recorded app state =
      (record_certificate w a app (certificate_status a state (secured app.domains)) state.reason).0

  record_certificate-quiet :
      (app : App) (state : CertificateState)
      → (record_certificate w a
          (recorded app state)
          (certificate_status a state (secured (recorded app state).domains))
          state.reason).1
        ≡ []
  unfolding record_certificate
  record_certificate-quiet app state =
      let status = certificate_status a state (secured app.domains) in
      let after = recorded app state in
      subst (λ st. (record_certificate w a after st state.reason).1 ≡ [])
        (sym (certificate_status-set_domains state status state.reason app.domains))
        (ap (λ b. if b then domain_messages w after status state.reason else [])
          (set_domains-settled status state.reason app.domains))

  abbrev has_nothing : App → Bool
  has_nothing app = not (a.domains_listed app.id) || length (secured app.domains) == 0

  check_certificate-nothing :
      (app : App) → has_nothing app ≡ true → check_certificate w a app ≡ (app, [])
  unfolding check_certificate
  check_certificate-nothing app e = ground (arith, e)

  check_certificate-unread :
      (app : App)
      → a.certificate app.namespace app.slug ≡ none
      → check_certificate w a app ≡ (app, [])
  unfolding check_certificate
  check_certificate-unread app e = ground (arith, e)

  check_certificate-missing :
      (app : App) (state : CertificateState)
      → a.certificate app.namespace app.slug ≡ some state
      → state.found ≡ false
      → check_certificate w a app ≡ (app, [])
  unfolding check_certificate
  check_certificate-missing app state e f = ground (arith, e, f)

  check_certificate-found :
      (app : App) (state : CertificateState)
      → has_nothing app ≡ false
      → a.certificate app.namespace app.slug ≡ some state
      → state.found ≡ true
      → check_certificate w a app
        ≡ record_certificate w a app (certificate_status a state (secured app.domains)) state.reason
  unfolding check_certificate
  check_certificate-found app state n e f = ground (arith, n, e, f)

  idle-quiet :
      (app : App)
      → check_certificate w a app ≡ (app, [])
      → (check_certificate w a (check_certificate w a app).0).1 ≡ []
  idle-quiet app e = ap (λ r. (check_certificate w a r.0).1) e ∙ ap (λ r. r.1) e

  has_nothing-recorded :
      (app : App) (state : CertificateState)
      → has_nothing app ≡ false
      → has_nothing (recorded app state) ≡ false
  unfolding record_certificate
  has_nothing-recorded app state n =
      ap (λ k. not (a.domains_listed app.id) || k == 0)
        (stale-set_domains (certificate_status a state (secured app.domains)) state.reason
          app.domains).1
      ∙ n

  found-quiet :
      (app : App) (state : CertificateState)
      → has_nothing app ≡ false
      → a.certificate app.namespace app.slug ≡ some state
      → state.found ≡ true
      → (check_certificate w a (check_certificate w a app).0).1 ≡ []
  unfolding record_certificate
  found-quiet app state n e f =
      ap (λ r. (check_certificate w a r.0).1) (check_certificate-found app state n e f)
      ∙ ap (λ r. r.1)
          (check_certificate-found (recorded app state) state (has_nothing-recorded app state n) e
            f)
      ∙ record_certificate-quiet app state

  pub check_certificate-quiet :
      (app : App) → (check_certificate w a (check_certificate w a app).0).1 ≡ []
  check_certificate-quiet app = elim (Bool-cases (has_nothing app)) [
    | inl n ↦ idle-quiet app (check_certificate-nothing app n)
    | inr n ↦ elim (Option-cases (a.certificate app.namespace app.slug)) [
      | inl e ↦ idle-quiet app (check_certificate-unread app e)
      | inr (state, e) ↦ elim (Bool-cases state.found) [
        | inl f ↦ found-quiet app state n e f
        | inr f ↦ idle-quiet app (check_certificate-missing app state e f)
      ]
    ]
  ]
