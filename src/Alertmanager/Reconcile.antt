-- ===== src/Alertmanager/Reconcile.antt =====
-- The reconciler of an Alertmanager.
use grafana_tools.Base.{
  String, Bool, true, Option, none, some, List, [], ◌∷◌, ◌&&◌, ◌==◌, Dict, assign, is_empty, concat,
  if◌then◌else◌,
}
use grafana_tools.Kube.{ObjectKey, Error, Reply, done, ignore_not_found, is_not_found}
use grafana_tools.Kube.Exec.{Answer, Exec, pure, fail, crash, ask, call, branch, check, ◌>>=◌, ◌>>◌}
use grafana_tools.Alertmanager.{
  WebhookConfig, Receiver, ConfigSpec, Alertmanager, Route, AlertmanagerConfig, ApiService,
}
use grafana_tools.Alertmanager.Validation.{validate_config}

abbrev pub inbox_group : String
inbox_group = "inbox.monitoring.appscode.com"

abbrev pub selector_key : String
selector_key = "monitoring.appscode.com/alertmanager-config-generator"

abbrev pub selector_value : String
selector_value = "monitoring-operator"

-- A call that changes something, with its outcome.
pub data Event : Type 0 where
  patched : Answer Alertmanager → Event
  configured : Receiver → Answer AlertmanagerConfig → Event
  deleted_config : Answer (Unit {0}) → Event

-- The answers of the cluster and of the detector, and the configuration that the operator was started
-- with.
pub record Env : Type 0 where
  pub spec : ConfigSpec
  pub get : List Event → Answer Alertmanager
  pub ready : List Event → Answer Bool
  pub api_services : List Event → Answer (List ApiService)
  pub patch : List Event → (Alertmanager → Alertmanager) → Answer Alertmanager
  pub write_config :
      List Event → ObjectKey → (AlertmanagerConfig → AlertmanagerConfig) → Answer AlertmanagerConfig
  pub delete_config : List Event → ObjectKey → Answer (Unit {0})

-- The loop of `GetInboxAPIService`.
unfoldable pub inbox_service : List ApiService → Option ApiService
inbox_service [] = none
inbox_service (s ∷ ss) = if s.group == inbox_group then some s else inbox_service ss

abbrev pub labels_of : Option (Dict String) → Dict String
labels_of none = []
labels_of (some m) = m

-- What `Reconcile` patches.
unfoldable pub select_configs : Alertmanager → Alertmanager
select_configs am = record am {
  config_labels = some (assign selector_key selector_value (labels_of am.config_labels));
  matcher_strategy = "None";
}

unfoldable pub inbox_webhook : ObjectKey → WebhookConfig
inbox_webhook svc = record {
  send_resolved = some true;
  url =
      some
        (concat "https://" (concat svc.name (concat "." (concat svc.namespace ".svc:443/alerts"))));
  url_secret = none;
  insecure_skip_verify = some true;
}

abbrev pub append : {A : Type 0} → List A → A → List A
append [] a = a ∷ []
append (x ∷ xs) a = x ∷ append xs a

unfoldable pub with_inbox : ObjectKey → Receiver → Receiver
unfolding inbox_webhook
with_inbox svc r = record r { webhook_configs = append r.webhook_configs (inbox_webhook svc) }

unfoldable pub route_to : Receiver → Route
route_to r = record {
  group_by = "alertname" ∷ "app" ∷ "app_namespace" ∷ "job" ∷ "k8s_kind" ∷ [];
  group_wait = "10s";
  group_interval = "1m";
  receiver = r.name;
  repeat_interval = "1h";
  continue = true;
  watchdog_receiver = r.name;
}

-- The function given to `CreateOrPatch`.
unfoldable pub generate : Receiver → AlertmanagerConfig → AlertmanagerConfig
unfolding route_to
generate r c = record {
  labels = assign selector_key selector_value c.labels;
  receivers = r ∷ [];
  route = some (route_to r);
}

abbrev pub config_key : Alertmanager → ObjectKey
config_key am = record { namespace = am.key.namespace; name = "alertmanager-config" }

abbrev pub has_no_channel : Receiver → Bool
has_no_channel r = is_empty r.email_configs && is_empty r.webhook_configs

abbrev pub accepted : Option Error → Exec Event (Unit {0})
accepted none = pure tt
accepted (some e) = fail e

abbrev pub first_receiver : List Receiver → Exec Event Receiver
first_receiver [] = crash "index out of range"
first_receiver (r ∷ rs) = pure r

abbrev pub with_service : Receiver → Option ObjectKey → Exec Event Receiver
with_service r none = crash "nil dereference of the service"
with_service r (some svc) = pure (with_inbox svc r)

abbrev pub with_api_service : Receiver → Option ApiService → Exec Event Receiver
with_api_service r none = pure r
with_api_service r (some s) = with_service r s.service

module _ (env : Env) where
  -- `deleteConfig`
  unfoldable pub delete_config : ObjectKey → Exec Event (Unit {0})
  unfolding check
  delete_config key =
      check (call (λ t. env.delete_config t key) deleted_config)
        (λ e. branch (is_not_found e) (pure tt) (fail e)) pure

  unfoldable pub write_config : ObjectKey → Receiver → Exec Event (Unit {0})
  write_config key r = do call (λ t. env.write_config t key (generate r)) (configured r); pure tt

  -- `SetupClusterForAlertmanager`
  unfoldable pub setup : Alertmanager → Option ApiService → Exec Event (Unit {0})
  setup am inbox = do
    accepted (validate_config env.spec)
    first ← first_receiver env.spec.receivers
    r ← with_api_service first inbox
    branch (has_no_channel r) (delete_config (config_key am)) (write_config (config_key am) r)

  unfoldable pub configure : Exec Event Reply
  configure = do
    services ← ask env.api_services
    am ← call (λ t. env.patch t select_configs) patched
    setup am (inbox_service services)
    pure done

  unfoldable pub reconcile : Exec Event Reply
  unfolding ◌>>=◌ configure ignore_not_found
  reconcile =
      check (ask env.get)
        (λ e. pure (record { requeue_after = 0; error = ignore_not_found (some e) }))
        λ am. do
          ready ← ask env.ready
          branch ready (branch am.is_deleted (pure done) configure) (pure done)
