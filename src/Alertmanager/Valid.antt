-- ===== src/Alertmanager/Valid.antt =====
-- Which configurations `validateConfig` accepts.
use grafana_tools.Base.{
  String, ℕ, Bool, true, false, Option, none, some, List, [], ◌∷◌, ◌++◌, ◌≡◌, ◌≢◌, refl, arith,
  ◌||◌, ◌==◌, eq_iff, suc, All, ◌↔◌, ◌⊎◌, inl, inr, subst,
}
use grafana_tools.Alertmanager.{SecretKey, EmailConfig, WebhookConfig, Receiver, ConfigSpec}
use grafana_tools.Alertmanager.Validation.{
  is_blank, lacks_password, is_bad_email, email_errors, no_target, bad_secret, webhook_errors,
  validate_config, name_errors, receiver_errors, joined, validate_receivers,
}

-- A key in a secret that is named.
abbrev pub IsNamed : SecretKey → Type 0
IsNamed k = (k.name ≢ "") × (k.key ≢ "")

abbrev pub IsNamedIfAny : Option SecretKey → Type 0
IsNamedIfAny none = Unit
IsNamedIfAny (some k) = IsNamed k

abbrev pub HasPassword : Option SecretKey → Type 0
HasPassword none = ⊥
HasPassword (some k) = IsNamed k

abbrev pub IsGoodEmail : EmailConfig → Type 0
IsGoodEmail c = (c.to ≢ "") × (c.from ≢ "") × (c.smarthost ≢ "") × HasPassword c.auth_password

abbrev pub HasTarget : WebhookConfig → Type 0
HasTarget c = (c.url ≢ none) ⊎ (c.url_secret ≢ none)

abbrev pub IsGoodWebhook : WebhookConfig → Type 0
IsGoodWebhook c = HasTarget c × IsNamedIfAny c.url_secret

abbrev pub IsGoodReceiver : Receiver → Type 0
IsGoodReceiver r =
    (r.name ≢ "") × All IsGoodEmail r.email_configs × All IsGoodWebhook r.webhook_configs

abbrev pub IsValid : ConfigSpec → Type 0
IsValid spec =
    (spec.has_route ≡ false) × (r : Receiver) × (spec.receivers ≡ r ∷ []) × IsGoodReceiver r

named : (k : SecretKey) → (is_blank k ≡ false) ↔ IsNamed k
named k = (
  (λ h. (ground (arith, h, eq_iff k.name ""), ground (arith, h, eq_iff k.key ""))),
  (λ (a, b). ground (arith, a, b, eq_iff k.name "", eq_iff k.key "")),
)

good_fields :
    (to from host : String) (password : Option SecretKey)
    → ((to == "" || from == "" || host == "" || lacks_password password) ≡ false)
      ↔ ((to ≢ "") × (from ≢ "") × (host ≢ "") × HasPassword password)
good_fields to from host none = ((λ h. ground (arith, h)), (λ h. absurd h.3))
good_fields to from host (some k) = (
  (λ h. (
    ground (arith, h, eq_iff to ""),
    ground (arith, h, eq_iff from ""),
    ground (arith, h, eq_iff host ""),
    (named k).0 (ground (arith, h)),
  )),
  (λ (a, b, c, d).
      ground (arith, a, b, c, (named k).1 d, eq_iff to "", eq_iff from "", eq_iff host "")),
)

good_email : (c : EmailConfig) → (is_bad_email c ≡ false) ↔ IsGoodEmail c
unfolding is_bad_email
good_email c = good_fields c.to c.from c.smarthost c.auth_password

good_emails : (i : ℕ) (cs : List EmailConfig) → (email_errors i cs ≡ []) ↔ All IsGoodEmail cs
unfolding email_errors
good_emails i [] = ((λ h. tt), (λ h. refl))
good_emails i (c ∷ cs) = (
  (λ h. ((good_email c).0 (ground (arith, h)), (good_emails (suc i) cs).0 (ground (arith, h)))),
  (λ (good, rest). ground (arith, (good_email c).1 good, (good_emails (suc i) cs).1 rest)),
)

appended : (xs ys : List String) → (xs ++ ys ≡ []) ↔ ((xs ≡ []) × (ys ≡ []))
appended [] ys = ((λ h. (refl, h)), (λ h. h.1))
appended (x ∷ xs) ys = ((λ h. ground (arith, h)), (λ h. ground (arith, h.0)))

targeted : (i : ℕ) (c : WebhookConfig) → (no_target i c ≡ []) ↔ HasTarget c
targeted i c = aimed c.url c.url_secret
  where
    aimed :
        (u : Option String) (k : Option SecretKey)
        → (no_target i (record c { url = u; url_secret = k }) ≡ []) ↔ ((u ≢ none) ⊎ (k ≢ none))
    aimed (some u) k = ((λ h. inl (λ e. ground (arith, e))), (λ h. refl))
    aimed none (some k) = ((λ h. inr (λ e. ground (arith, e))), (λ h. refl))
    aimed none none = (
      (λ h. ground (arith, h)),
      (λ h. elim h [ inl e ↦ absurd (e refl) | inr e ↦ absurd (e refl) ]),
    )

secret_named : (i : ℕ) (k : Option SecretKey) → (bad_secret i k ≡ []) ↔ IsNamedIfAny k
secret_named i none = ((λ h. tt), (λ h. refl))
secret_named i (some k) =
    ((λ h. (named k).0 (ground (arith, h))), (λ h. ground (arith, (named k).1 h)))

good_webhooks :
    (i : ℕ) (cs : List WebhookConfig) → (webhook_errors i cs ≡ []) ↔ All IsGoodWebhook cs
unfolding webhook_errors
good_webhooks i [] = ((λ h. tt), (λ h. refl))
good_webhooks i (c ∷ cs) = (
  (λ h.
      let (first, rest) = (appended (no_target i c) _).0 h in
      let (second, third) = (appended (bad_secret i c.url_secret) _).0 rest in
      (
        ((targeted i c).0 first, (secret_named i c.url_secret).0 second),
        (good_webhooks (suc i) cs).0 third,
      )),
  (λ ((target, secret), rest). (appended (no_target i c) _).1 (
    (targeted i c).1 target,
    (appended (bad_secret i c.url_secret) _).1
        ((secret_named i c.url_secret).1 secret, (good_webhooks (suc i) cs).1 rest),
  )),
)

good_name : (name : String) → (name_errors name ≡ []) ↔ (name ≢ "")
good_name name =
    ((λ h. ground (arith, h, eq_iff name "")), (λ h. ground (arith, h, eq_iff name "")))

good_receiver : (r : Receiver) → (receiver_errors r ≡ []) ↔ IsGoodReceiver r
good_receiver r = (
  (λ h.
      let (first, rest) = (appended (name_errors r.name) _).0 h in
      let (second, third) = (appended (email_errors 0 r.email_configs) _).0 rest in
      (
        (good_name r.name).0 first,
        (good_emails 0 r.email_configs).0 second,
        (good_webhooks 0 r.webhook_configs).0 third,
      )),
  (λ (name, emails, webhooks). (appended (name_errors r.name) _).1 (
    (good_name r.name).1 name,
    (appended (email_errors 0 r.email_configs) _).1
        ((good_emails 0 r.email_configs).1 emails, (good_webhooks 0 r.webhook_configs).1 webhooks),
  )),
)

no_error : (es : List String) → (joined es ≡ none) ↔ (es ≡ [])
no_error [] = ((λ h. refl), (λ h. refl))
no_error (e ∷ es) = ((λ h. ground (arith, h)), (λ h. ground (arith, h)))

valid_receivers :
    (rs : List Receiver) (has_route : Bool)
    → (validate_receivers rs has_route ≡ none)
      ↔ ((has_route ≡ false) × (r : Receiver) × (rs ≡ r ∷ []) × IsGoodReceiver r)
valid_receivers [] has_route = ((λ h. ground (arith, h)), (λ h. ground (arith, h.2)))
valid_receivers (r ∷ r' ∷ rs) has_route = ((λ h. ground (arith, h)), (λ h. ground (arith, h.2)))
valid_receivers (r ∷ []) true = ((λ h. ground (arith, h)), (λ h. ground (arith, h.0)))
valid_receivers (r ∷ []) false = (
  (λ h. (refl, r, refl, (good_receiver r).0 ((no_error _).0 h))),
  (λ (e, r', same, good).
      (no_error _).1 ((good_receiver r).1 (subst IsGoodReceiver (ground (arith, same)) good))),
)

-- A configuration is accepted exactly when it has no route and one receiver, which has a name, whose
-- emails all say to whom, from whom and through which host they go, with a password in a secret, and
-- whose webhooks all have a URL or a secret with one, the secret with its name and key.
pub validate_config-IsValid : (spec : ConfigSpec) → (validate_config spec ≡ none) ↔ IsValid spec
unfolding validate_config
validate_config-IsValid spec = valid_receivers spec.receivers spec.has_route
