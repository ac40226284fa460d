-- ===== src/Tests/Federations.antt =====
-- A service monitor that is federated to the Prometheus of a project.
use grafana_tools.Base.{String, true, false, none, List, [], ◌∷◌, ◌≡◌, refl, All, ◌==◌}
use grafana_tools.Kube.{ObjectKey, failed, not_found}
use grafana_tools.Kube.Exec.{yields, fails, check, attempt, ◌>>=◌}
use grafana_tools.ServiceMonitor.Federation.{
  ServiceMonitor, Prometheus, Service, Env, copied_monitor, copied_service, labelled,
}
use grafana_tools.ServiceMonitor.Federation.Copies.{
  copy_to, copy_monitor, copy_rest, copy_services, copy_service, copy_its_endpoints, copy_secrets,
  put_services,
}
use grafana_tools.ServiceMonitor.Federation.Reconcile.{
  federate, each, source_services, source_secrets, update_labels,
}
use grafana_tools.ServiceMonitor.Federation.Contained.{Contained, federate-Contained}

abbrev key : String → String → ObjectKey
key ns name = record { namespace = ns; name = name }

abbrev prometheus : String → Prometheus
prometheus ns = record { key = key ns "prom"; monitor_labels = [] }

abbrev both : List Prometheus
both = prometheus "project" ∷ prometheus "system" ∷ []

abbrev monitor : ServiceMonitor
monitor = record {
  key = key "db" "stats";
  labels = [];
  namespaces = "db" ∷ [];
  endpoints =
      record { honor_labels = false; metric_relabels = []; ca_secret = none; rest = "" } ∷ [];
  rest = "";
}

abbrev service : Service
service = record {
  key = key "db" "postgres";
  labels = [];
  annotations = [];
  is_cluster_ip = true;
  spec = record { cluster_ip = "10.0.0.1"; ports = [] };
}

abbrev env : Env
env = record {
  texts = record {
    prometheus_key = "prometheus";
    federated_value = "federated";
    project_key = "id";
  };
  get = λ t. yields monitor;
  list = λ t. yields both;
  ready = λ t. yields true;
  federated = true;
  is_default = λ k. k.namespace == "system";
  default_prometheus = λ ps. none;
  selector = λ m. yields tt;
  select = λ t m ns. yields (service ∷ []);
  select_namespaces = λ t p. yields [];
  get_secret = λ t k. fails (not_found "secrets");
  get_endpoints = λ t k. fails (not_found "endpoints");
  overwrite = λ old new. new;
  sort = λ ns. ns;
  aggregate = λ e es. e;
  label = λ t m f. yields (f m);
  write_monitor = λ t k f. yields tt;
  write_service = λ t k f. yields tt;
  read_endpoints = λ t k. fails (failed "forbidden");
  write_endpoints = λ t k e. yields tt;
  write_secret = λ t k s. yields tt;
}

federate-Contained_example : All (Contained env "db" both) (federate env monitor both []).1
federate-Contained_example = federate-Contained env monitor both

copies :
    (federate env monitor both []).1
    ≡ labelled (prometheus "system") (yields monitor)
      ∷ copied_service (key "project" "postgres") (yields tt)
      ∷ copied_monitor (key "project" "stats") (yields tt)
      ∷ []
unfolding federate ◌>>=◌ check attempt each copy_to copy_monitor copy_rest copy_services
    copy_service copy_its_endpoints copy_secrets source_services source_secrets put_services
    update_labels
copies = refl
