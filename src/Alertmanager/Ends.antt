-- ===== src/Alertmanager/Ends.antt =====
-- How a run of the reconciler of an Alertmanager ends.
use grafana_tools.Base.{
  true, false, Option, none, some, List, [], ◌∷◌, ◌≡◌, ◌≢◌, ◌⊎◌, inl, inr, Bool-cases, ◌∙◌, refl,
  arith, is_empty,
}
use grafana_tools.Kube.Exec.Steps.{bind-bind, branch-bind}
use grafana_tools.Kube.{ObjectKey, Error, Reply, done, is_not_found}
use grafana_tools.Kube.Exec.{yields, fails, Outcome, ok, err, panic, Exec, pure, continue, ◌>>=◌}
use grafana_tools.Alertmanager.{Receiver, ConfigSpec, Alertmanager, ApiService}
use grafana_tools.Alertmanager.Validation.{validate_config}
use grafana_tools.Alertmanager.Reconcile.{
  Event, patched, configured, deleted_config, Env, with_inbox, has_no_channel, delete_config,
  write_config, setup, append, inbox_webhook, accepted, first_receiver, with_service,
  with_api_service, config_key,
}

-- The receiver that is to be configured: the one of the operator, and the inbox where it is there.
abbrev pub reached : Receiver → Option ObjectKey → Option Receiver
reached r none = none
reached r (some svc) = some (with_inbox svc r)

abbrev pub expected : List Receiver → Option ApiService → Option Receiver
expected (r ∷ rs) none = some r
expected (r ∷ rs) (some s) = reached r s.service
expected [] s = none

-- A receiver has a channel where it has an email or a webhook.
abbrev pub HasChannel : Receiver → Type 0
HasChannel r = (r.email_configs ≢ []) ⊎ (r.webhook_configs ≢ [])

-- The operator's configuration is valid, and its receiver, with no inbox, has no email and no webhook.
abbrev pub HasNone : ConfigSpec → Option ApiService → Type 0
HasNone spec inbox =
    (inbox ≡ none)
    × (validate_config spec ≡ none)
    × (r : Receiver) × (expected spec.receivers inbox ≡ some r)
    × (r.email_configs ≡ [])
    × (r.webhook_configs ≡ [])

-- Newest call first: the Alertmanager was patched before anything else; a configuration is written
-- only for the receiver expected, when the operator's is valid, and only when it has a channel; it is
-- deleted only when that has none. The outcome is that of the last call.
unfoldable pub EndsWell : ConfigSpec → Option ApiService → Outcome Reply × List Event → Type 0
EndsWell spec inbox (o, configured r (yields c) ∷ patched (yields am) ∷ []) =
    (o ≡ ok done)
    × (validate_config spec ≡ none)
    × (expected spec.receivers inbox ≡ some r)
    × HasChannel r
EndsWell spec inbox (o, configured r (fails e) ∷ patched (yields am) ∷ []) =
    (o ≡ err e)
    × (validate_config spec ≡ none)
    × (expected spec.receivers inbox ≡ some r)
    × HasChannel r
EndsWell spec inbox (err e, patched (fails e') ∷ []) = e ≡ e'
EndsWell spec inbox (err e, patched (yields am) ∷ []) = validate_config spec ≡ some e
EndsWell spec inbox (panic m, patched (yields am) ∷ []) = expected spec.receivers inbox ≡ none
EndsWell spec inbox (ok reply, deleted_config (yields u) ∷ patched (yields am) ∷ []) =
    HasNone spec inbox
EndsWell spec inbox (ok reply, deleted_config (fails e) ∷ patched (yields am) ∷ []) =
    HasNone spec inbox × (is_not_found e ≡ true)
EndsWell spec inbox (err e, deleted_config (fails e') ∷ patched (yields am) ∷ []) =
    HasNone spec inbox × (e ≡ e') × (is_not_found e ≡ false)
EndsWell spec inbox _ = ⊥

is_empty-append : {A : Type 0} (xs : List A) (a : A) → is_empty (append xs a) ≡ false
is_empty-append [] a = refl
is_empty-append (x ∷ xs) a = refl

inboxed :
    (r r' : Receiver) (k : Option ObjectKey) → reached r k ≡ some r' → has_no_channel r' ≡ true → ⊥
unfolding with_inbox
inboxed r r' none e c = ground (arith, e)
inboxed r r' (some svc) e c =
    ground (arith, e, c, is_empty-append r.webhook_configs (inbox_webhook svc))

empty_list : {A : Type 0} (xs : List A) → is_empty xs ≡ true → xs ≡ []
empty_list [] e = refl
empty_list (x ∷ xs) e = ground (arith, e)

bare : (r : Receiver) → has_no_channel r ≡ true → (r.email_configs ≡ []) × (r.webhook_configs ≡ [])
bare r e = (
  empty_list r.email_configs (ground (arith, e)),
  empty_list r.webhook_configs (ground (arith, e)),
)

channelled : (r : Receiver) → has_no_channel r ≡ false → HasChannel r
channelled r e = elim (Bool-cases (is_empty r.email_configs)) [
  | inl no_email ↦ inr (λ none_there. ground (arith, e, no_email, none_there))
  | inr some_email ↦ inl (λ none_there. ground (arith, some_email, none_there))
]

module _ (env : Env) (inbox : Option ApiService) where
  abbrev spec : ConfigSpec
  spec = env.spec

  abbrev P : Outcome Reply × List Event → Type 0
  P = EndsWell spec inbox

  module _ (am : Alertmanager) where
    abbrev start : List Event
    start = patched (yields am) ∷ []

    rejected_or :
        (v : Option Error) (f : Unit {0} → Exec Event Reply)
        → validate_config spec ≡ v
        → (v ≡ none → P (f tt start))
        → P ((accepted v >>= f) start)
    unfolding EndsWell ◌>>=◌ continue
    rejected_or none f e h = h refl
    rejected_or (some x) f e h = e

    received :
        (rs : List Receiver) (f : Receiver → Exec Event Reply)
        → spec.receivers ≡ rs
        → ((r : Receiver) (rest : List Receiver) → rs ≡ r ∷ rest → P (f r start))
        → P ((first_receiver rs >>= f) start)
    unfolding EndsWell ◌>>=◌ continue
    received [] f e h = rw e refl
    received (r ∷ rs) f e h = h r rs refl

    through :
        (r : Receiver) (k : Option ObjectKey) (f : Receiver → Exec Event Reply)
        → expected spec.receivers inbox ≡ reached r k
        → ((r' : Receiver) → reached r k ≡ some r' → P (f r' start))
        → P ((with_service r k >>= f) start)
    unfolding EndsWell ◌>>=◌ continue
    through r none f e h = e
    through r (some svc) f e h = h (with_inbox svc r) refl

    served :
        (r : Receiver) (s : Option ApiService) (f : Receiver → Exec Event Reply)
        → expected spec.receivers inbox ≡ expected (r ∷ []) s
        → ((r' : Receiver) → expected (r ∷ []) s ≡ some r' → P (f r' start))
        → P ((with_api_service r s >>= f) start)
    unfolding ◌>>=◌ continue
    served r none f e h = h r refl
    served r (some s) f e h = through r s.service f e h

    written :
        (r : Receiver)
        → validate_config spec ≡ none
        → expected spec.receivers inbox ≡ some r
        → has_no_channel r ≡ false
        → P ((write_config env (config_key am) r >>= λ u. pure done) start)
    unfolding EndsWell ◌>>=◌ continue write_config
    written r v x c = ground (arith, v, x, channelled r c)

    deleted : HasNone spec inbox → P ((delete_config env (config_key am) >>= λ u. pure done) start)
    unfolding EndsWell ◌>>=◌ continue delete_config
    deleted (no_inbox, valid, r, same, emails, webhooks) =
        ground (arith, no_inbox, valid, same, emails, webhooks)

    -- A receiver with no channel is the operator's own, as the inbox is one.
    channels :
        (r r' : Receiver)
        → (s : Option ApiService) → expected (r ∷ []) s ≡ some r'
        → has_no_channel r' ≡ true
        → s ≡ none
    unfolding with_inbox
    channels r r' none e c = refl
    channels r r' (some s) e c = absurd (inboxed r r' s.service e c)

    alone :
        (r : Receiver) (rest : List Receiver) (s : Option ApiService)
        → expected (r ∷ rest) s ≡ expected (r ∷ []) s
    alone r rest none = refl
    alone r rest (some s) = refl

    only :
        (r : Receiver) (rest : List Receiver)
        → spec.receivers ≡ r ∷ rest
        → expected spec.receivers inbox ≡ expected (r ∷ []) inbox
    only r rest e = rw e (alone r rest inbox)

    set_up : P ((setup env am inbox >>= λ u. pure done) start)
    unfolding setup
    set_up = bind-bind P _ _ _ start (
        rejected_or (validate_config spec) _ refl λ valid. bind-bind P _ _ _ start (
          received spec.receivers _ refl λ r rest rs. bind-bind P _ _ _ start (
            served r inbox _ (only r rest rs) λ r' e.
              branch-bind P (has_no_channel r') _ _ _ start
                (λ c.
                  let (emails, webhooks) = bare r' c in
                  deleted
                    (channels r r' inbox e c, valid, r', only r rest rs ∙ e, emails, webhooks))
                (λ c. written r' valid (only r rest rs ∙ e) c))))
