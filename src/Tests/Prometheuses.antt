-- ===== src/Tests/Prometheuses.antt =====
-- A Prometheus that is registered and deleted.
use grafana_tools.Base.{String, true, false, none, some, [], ◌∷◌, ◌≡◌, ◌⊎◌, refl, ◌&&◌, index, itoa}
use grafana_tools.Kube.{ObjectKey, failed, not_found}
use grafana_tools.Kube.Exec.{Answer, yields, fails, ok, err, outcome, ◌>>=◌}
use grafana_tools.Detector.{Names, ServiceSpec}
use grafana_tools.Detector.Prometheus.{Detector, standalone, rancher}
use grafana_tools.Grafana.State.{PersesConfiguration}
use grafana_tools.Rancher.{Secret}
use grafana_tools.Prometheus.{
  Prometheus, Service, RoleBinding, Config, Texts, Env, Scope, cluster_scope, deleted_preset,
  unregistered,
}
use grafana_tools.Hub.{grafana}
use grafana_tools.Prometheus.Setup.{
  finish, is_due, is_legacy, setup, credentials, grant, config_of, register, publish, mark,
}
use grafana_tools.Prometheus.Project.{cleanup_preset, create_preset, scope_of, context_of}
use grafana_tools.Prometheus.Bindings.{create_prometheus_binding, create_backend_binding}
use grafana_tools.Prometheus.Setup.Registered.{FinishesBy}
use grafana_tools.Prometheus.Setup.Marks.{finish-FinishesBy}
use grafana_tools.ClientOrg.Config.{World, build_config}
use grafana_tools.ClientOrg.Config.Agrees.{config-agrees}
use grafana_tools.Prometheus.Reconcile.{reconcile_deleted, unregister}
use grafana_tools.Prometheus.Reconcile.Deletion.{
  ForgottenFirst, deletion-ForgottenFirst, without_preset, deletion-IsStuck,
}

abbrev key : String → String → ObjectKey
key ns name = record { namespace = ns; name = name }

abbrev prom : Prometheus
prom = record {
  key = key "monitoring" "prom";
  is_deleted = false;
  finalizers = [];
  external_labels = [];
  namespace_selector = none;
  service_monitor_labels = [];
  rule_labels = [];
}

abbrev secret : Secret
secret = record { key = key "monitoring" "trickster"; contents = ("token", "t") ∷ [] }

abbrev names : Names
names = record {
  rancher_monitoring = key "cattle-monitoring-system" "rancher-monitoring-prometheus";
  openshift_user_workload = key "openshift-user-workload-monitoring" "user-workload";
  openshift_thanos_querier = key "openshift-monitoring" "thanos-querier";
}

abbrev texts : Texts
texts = record {
  finalizer = "prom/finalizer";
  registered_key = "prom/registered";
  token_id_key = "prom/token-id";
  helm_project_key = "helm.cattle.io/projectId";
  self_namespace = "kubeops";
}

abbrev binding : RoleBinding
binding = record { owner = ""; role = ""; subjects = []; annotations = [] }

abbrev service : Service
service = record {
  key = key "monitoring" "prom";
  ports = record { name = "http-web"; port = 9090 } ∷ [];
}

abbrev perses_config : PersesConfiguration
perses_config = record {
  datasource = "ds";
  project_name = "p";
  project_id = 1;
  folder_name = "f";
  folder_id = 1;
}

abbrev env : Answer (Unit {0}) → Env
env deletion = record {
  texts = texts;
  names = names;
  rancher_secret_name = "";
  has_client = true;
  ca_cert = "";
  get = λ t. yields prom;
  ready = λ t. yields (some (standalone false false true));
  cluster_metadata = λ t. yields (record { name = "c"; uid = "u"; state = "s1" });
  system_project = λ t. yields none;
  get_service = λ t k. yields service;
  get_secret = λ t k. yields secret;
  decode_token = λ t s. fails (failed "unauthorized");
  is_ace_spoke = λ t. false;
  token_secret = λ t k. yields secret;
  apps_domain = λ t. yields "apps.example.com";
  service_signer = λ t. yields "";
  service_reference = yields;
  label = λ t p. yields p;
  patch = λ t p f. yields (f p);
  write_service_account = λ t k. yields tt;
  write_cluster_role = λ t. yields tt;
  bind = λ t ns f. yields (f binding);
  write_preset = λ t s p. yields tt;
  delete_preset = λ t s. deletion;
  register_grafana = λ t ctx c.
      yields (record {
        url = "https://grafana";
        bearer_token = "b";
        datasource = "ds";
        folder_id = none;
      });
  register_perses = λ t ctx c.
      yields (record { url = "https://perses"; bearer_token = "b"; config = perses_config });
  unregister = λ t b ctx. yields tt;
  write_binding = λ t k f. yields tt;
  write_secret = λ t k token. yields tt;
  with_finalizer = λ fs f. f ∷ fs;
  without_finalizer = λ fs f. [];
}

abbrev detector : Detector
detector = standalone false false true

abbrev rancher_detector : Detector
rancher_detector = rancher

abbrev spec : ServiceSpec
spec = record { scheme = "http"; namespace = "monitoring"; name = "prom"; port = "9090" }

abbrev config : Config
config = record { url = ""; service = some spec; bearer_token = "t"; ca = "" }

finish-FinishesBy_example :
    FinishesBy
      (is_legacy (env (yields tt)) binding)
      (true && is_due (env (yields tt)) binding "s1" none)
      true
      config
      (finish (env (yields tt)) detector prom true service spec config "s1" none binding [])
finish-FinishesBy_example =
    finish-FinishesBy (env (yields tt)) detector prom true service spec config "s1" none binding

registration_due : is_due (env (yields tt)) binding "s1" none ≡ true
unfolding is_due
registration_due = refl

registration_ends : (setup (env (yields tt)) detector prom true []).0 ≡ ok tt
unfolding setup ◌>>=◌ credentials grant create_preset scope_of config_of finish register context_of
    publish create_prometheus_binding create_backend_binding mark
registration_ends = refl

-- A Prometheus of a project, as Rancher federates it.
abbrev of_project : Prometheus
of_project = record prom { namespace_selector = some (("helm.cattle.io/projectId", "p-1") ∷ []) }

deletion-ForgottenFirst_example :
    ForgottenFirst
      (env (yields tt))
      rancher_detector
      of_project
      false
      (reconcile_deleted (env (yields tt)) rancher_detector of_project false [])
deletion-ForgottenFirst_example =
    deletion-ForgottenFirst (env (yields tt)) rancher_detector of_project false

abbrev away : Env
away = record (env (yields tt)) { unregister = λ t b ctx. fails (failed "the hub is away") }

deletion-IsStuck_example :
    (s : Scope) × ((deleted_preset cluster_scope (yields tt) ∷ []
        ≡ deleted_preset s (yields tt) ∷ [])
      ⊎ (deleted_preset cluster_scope (yields tt) ∷ []
          ≡ unregistered grafana (record { project_id = ""; is_default = true }) (yields tt)
            ∷ deleted_preset s (yields tt)
            ∷ []))
    × (reconcile_deleted (without_preset away "gone") detector prom true []
        ≡ (err (not_found "gone"), deleted_preset s (fails (not_found "gone")) ∷ []))
unfolding reconcile_deleted ◌>>=◌ cleanup_preset scope_of context_of unregister
deletion-IsStuck_example =
    deletion-IsStuck away detector prom true (err (failed "the hub is away")) grafana
      (record { project_id = ""; is_default = true }) (failed "the hub is away")
      (deleted_preset cluster_scope (yields tt) ∷ []) "gone" refl

abbrev world : World
world = record {
  names = names;
  registered_key = "prom/registered";
  detector = detector;
  is_openshift = false;
  prometheuses = yields (key "monitoring" "prom" ∷ []);
  get_service = λ k. yields service;
  get_role_binding = λ k. yields (("prom/registered", "s1") ∷ []);
  apps_domain = yields "apps.example.com";
  token_secret = λ k. yields secret;
}

config-agrees_example :
    outcome (build_config world (key "monitoring" "prom") service)
    ≡ ok (record { url = ""; service = some spec; bearer_token = ""; ca = "" })
unfolding config_of index grafana_tools.Detector.Prometheus.service itoa
config-agrees_example =
    config-agrees (env (yields tt)) world (key "monitoring" "prom") service
      (record { rancher = none; service_account = "t"; ca = "" }) []
      (("prom/registered", "s1") ∷ []) secret refl refl refl refl refl
