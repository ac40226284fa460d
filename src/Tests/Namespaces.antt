-- ===== src/Tests/Namespaces.antt =====
-- A client namespace in service, and torn down.
use grafana_tools.Base.{String, ℕ, true, false, none, [], ◌∷◌, ◌≡◌, refl, inl, index, lookup, arith}
use grafana_tools.Kube.{ObjectKey, done, failed, not_found, is_not_found}
use grafana_tools.Kube.Exec.{yields, fails, ok}
use grafana_tools.Prometheus.{grafana_parameters}
use grafana_tools.ClientOrg.{Keys, Namespace, cleaned_up_key}
use grafana_tools.ClientOrg.Backends
use grafana_tools.ClientOrg.Config.{World}
use grafana_tools.Detector.Prometheus.{standalone}
use grafana_tools.ClientOrg.Reconcile.{Env, route, reconcile, handle_deletion}
use grafana_tools.ClientOrg.Reconcile.Teardown.{
  CleanedFirst, teardown-CleanedFirst, teardown_completes,
}
use grafana_tools.ClientOrg.Reconcile.Guards.{IsDue, change-IsDue}

abbrev keys : Keys
keys = record {
  client_org = "client-org";
  ace_org_id = "org";
  registered = "registered";
  prometheus_key = "prometheus";
}

abbrev labelled : String → Namespace
labelled label = record {
  name = "acme";
  is_deleted = false;
  finalizers = "prometheus" ∷ [];
  labels = ("client-org", label) ∷ [];
  annotations = ("org", "7") ∷ (cleaned_up_key, "true") ∷ [];
}

abbrev deleted : Namespace
deleted = record (labelled "true") { is_deleted = true }

abbrev hub : Backends.Env ℕ
hub = record {
  keys = keys;
  binding_exists = λ t b. true;
  register = λ t b. yields 1;
  write_binding = λ t b r. yields tt;
  write_secret = λ t b r. yields tt;
  patch = λ t ns f. yields tt;
  url_of = λ r. "https://grafana.demo";
  token_of = λ r. "t0";
  parameters_of = λ r. grafana_parameters "ds" none;
  ca_cert = "";
  aggregate = λ e es. e;
}

abbrev prometheus : ObjectKey
prometheus = record { namespace = "monitoring"; name = "prom" }

abbrev shown : World
shown = record {
  names = record {
    rancher_monitoring = prometheus;
    openshift_user_workload = prometheus;
    openshift_thanos_querier = prometheus;
  };
  registered_key = "registered";
  detector = standalone true false true;
  is_openshift = false;
  prometheuses = yields (prometheus ∷ []);
  get_service = λ k. yields (record { key = k; ports = [] });
  get_role_binding = λ k. yields (("registered", "state") ∷ []);
  apps_domain = yields "apps.demo";
  token_secret = λ k. yields (record { key = k; contents = ("token", "t0") ∷ [] });
}

abbrev cluster : Namespace → Namespace → Env ℕ ℕ ℕ
cluster cached fresh = record {
  keys = keys;
  get = λ t. yields cached;
  fresh = λ t. yields fresh;
  get_monitoring = λ t n. yields deleted;
  create = λ t n. yields fresh;
  patch = λ t n f. yields tt;
  bind = λ t n o. yields tt;
  delete_all = λ t b n. fails (not_found n);
  has_client = true;
  unregister = λ t b. fails (failed "the hub is away");
  ready = λ t. yields true;
  rancher_managed = λ t. false;
  federated = λ t. false;
  world = λ t. shown;
  cluster_state = λ t. yields "state";
  backends = λ cfg t. hub;
  grafana_dashboards = λ t. yields [];
  perses_dashboards = λ t. yields [];
  put_grafana = λ t w. none;
  put_perses = λ t w. none;
  client_title = λ s. s;
  hash_grafana = λ d. "h";
  hash_perses = λ d. "h";
  with_finalizer = λ fs f. f ∷ fs;
  without_finalizer = λ fs f. [];
  aggregate = λ e es. e;
}

abbrev live : Env ℕ ℕ ℕ
live = cluster (labelled "true") deleted

teardown-CleanedFirst_example : CleanedFirst deleted (route live deleted []).1
teardown-CleanedFirst_example = teardown-CleanedFirst live deleted (inl refl)

teardown_completes_example : (handle_deletion live deleted []).0 ≡ ok done
unfolding is_not_found
teardown_completes_example = teardown_completes live deleted (λ t b m. refl) (λ t n f. refl)

change-IsDue_example : IsDue (cluster (labelled "true") (labelled "true"))
unfolding reconcile index lookup
change-IsDue_example =
    change-IsDue (cluster (labelled "true") (labelled "true"))
      (λ unchanged. ground (arith, unchanged))
