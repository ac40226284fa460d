-- ===== src/Prometheus/Bindings.antt =====
-- The AppBindings of the default Prometheus.
use grafana_tools.Base.{String, none, some, assign, concat, if◌then◌else◌}
use grafana_tools.Kube.{ObjectKey}
use grafana_tools.Kube.Exec.{Exec, pure, ask, call, branch, check, ◌>>=◌, ◌>>◌}
use grafana_tools.Detector.{ServiceSpec}
use grafana_tools.Detector.Prometheus.{Detector, openshift_managed}
use grafana_tools.Hub.{Backend, grafana, perses}
use grafana_tools.Prometheus.{
  Prometheus, Binding, Parameters, grafana_parameters, perses_parameters, GrafanaResponse,
  PersesResponse, Event, wrote_prometheus_binding, wrote_binding, wrote_secret, Env,
}

abbrev pub binding_key : Prometheus → String → ObjectKey
binding_key p name = record { namespace = p.key.namespace; name = name }

abbrev pub default_name : Backend → String
default_name grafana = "default-grafana"
default_name perses = "default-perses"

abbrev pub default_annotation : Backend → String
default_annotation grafana = "monitoring.appscode.com/is-default-grafana"
default_annotation perses = "monitoring.appscode.com/is-default-perses"

abbrev pub type_name : Backend → String
type_name grafana = "Grafana"
type_name perses = "Perses"

-- The function given to `CreateOrPatch` for the AppBinding of Prometheus. The service is
-- `ToServiceReference` of the detector's.
unfoldable pub prometheus_binding :
    Detector → Prometheus → ServiceSpec → ServiceSpec → String → Binding → Binding
unfolding openshift_managed
prometheus_binding d p svc sref ca b = record b {
  owner = p.key;
  annotations = assign "monitoring.appscode.com/is-default-prometheus" "true" b.annotations;
  type = "Prometheus";
  app_ref = some p.key;
  url = none;
  service = some sref;
  ca_bundle = if openshift_managed d then ca else "";
  server_name =
      if openshift_managed d
      then concat svc.name (concat "." (concat svc.namespace ".svc"))
      else "";
}

-- The one for the AppBindings of Grafana and Perses; the parameters are those of the answer.
unfoldable pub backend_binding :
    Backend → Prometheus → String → Parameters → String → Binding → Binding
backend_binding k p url params ca_cert b = record b {
  owner = p.key;
  annotations = assign (default_annotation k) "true" b.annotations;
  type = type_name k;
  app_ref = none;
  url = some url;
  service = none;
  secret = some (concat (default_name k) "-auth");
  ca_bundle = ca_cert;
  server_name = "";
  parameters = some params;
}

module _ (env : Env) where
  unfoldable pub create_prometheus_binding :
      Detector → Prometheus → ServiceSpec → Exec Event (Unit {0})
  create_prometheus_binding d p svc = do
    sref ← ask (λ t. env.service_reference svc)
    ca ← branch (openshift_managed d) (ask env.service_signer) (pure "")
    call
        (λ t.
          env.write_binding t (binding_key p "default-prometheus")
            (prometheus_binding d p svc sref ca))
        wrote_prometheus_binding

  -- What `CreateGrafanaAppBinding` and `CreatePersesAppBinding` share: an error of the secret is dropped.
  unfoldable pub create_backend_binding :
      Backend → Prometheus → String → Parameters → String → Exec Event (Unit {0})
  create_backend_binding k p url params token = do
    call
        (λ t.
          env.write_binding t (binding_key p (default_name k))
            (backend_binding k p url params env.ca_cert))
        (wrote_binding k)
    check
        (call (λ t. env.write_secret t (binding_key p (concat (default_name k) "-auth")) token)
          (wrote_secret k token))
        (λ e. pure tt) pure

  abbrev pub create_grafana_app_binding : Prometheus → GrafanaResponse → Exec Event (Unit {0})
  create_grafana_app_binding p r =
      create_backend_binding grafana p r.url (grafana_parameters r.datasource r.folder_id)
        r.bearer_token

  abbrev pub create_perses_app_binding : Prometheus → PersesResponse → Exec Event (Unit {0})
  create_perses_app_binding p r =
      create_backend_binding perses p r.url (perses_parameters r.config) r.bearer_token
