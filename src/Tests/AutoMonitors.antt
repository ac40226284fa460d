-- ===== src/Tests/AutoMonitors.antt =====
-- A service monitor in a cluster with two Prometheus objects.
use grafana_tools.Base.{
  String, true, false, none, List, [], ◌∷◌, ◌≡◌, refl, ap, ◌==◌, inl, inr, index, lookup,
}
use grafana_tools.Kube.{done}
use grafana_tools.Kube.Exec.{yields, ok, check, ◌>>=◌}
use grafana_tools.ServiceMonitor.Order.{sorted}
use grafana_tools.ServiceMonitor.Auto.{
  Prometheus, ServiceMonitor, Env, labelled, process, among, assign_prometheus, update_labels,
  has_prom, default_of,
}
use grafana_tools.ServiceMonitor.Auto.Labelled.{IsLabelled, process-IsLabelled}
use grafana_tools.ServiceMonitor.Auto.Selected.{IsUnchanged, selected-IsUnchanged}

abbrev prometheus : String → Prometheus
prometheus ns = record {
  key = record { namespace = ns; name = "prom" };
  namespace_selector = yields (λ labels. true);
  monitor_selector = yields (λ labels. index labels "release" == ns);
  monitor_labels = ("release", ns) ∷ [];
}

abbrev both : List Prometheus
both = prometheus "system" ∷ prometheus "demo" ∷ []

abbrev monitor : String → ServiceMonitor
monitor release = record {
  key = record { namespace = "db"; name = "stats" };
  labels = ("prometheus", "auto") ∷ ("release", release) ∷ [];
}

abbrev env : String → Env
env release = record {
  texts = record {
    prometheus_key = "prometheus";
    auto_value = "auto";
    rancher_namespace = "cattle-monitoring-system";
    helm_project_key = "helm.cattle.io/projectId";
  };
  get = λ t. yields (monitor release);
  ready = λ t. yields true;
  list = λ t. yields both;
  namespace_labels = λ t ns. yields [];
  is_openshift_managed = false;
  is_rancher_managed = false;
  is_default = λ k. true;
  system_project = λ t. "";
  project_of = λ t ns. yields none;
  overwrite = λ old new. new;
  patch = λ t m f. yields tt;
}

process-IsLabelled_example : IsLabelled both (process (env "none") (monitor "none") [])
process-IsLabelled_example = process-IsLabelled (env "none") (monitor "none") both refl

-- The Prometheus of the first namespace is taken.
taken :
    process (env "none") (monitor "none") []
    ≡ (ok done, labelled (prometheus "demo") (yields tt) ∷ [])
unfolding process ◌>>=◌ check lookup among has_prom index assign_prometheus default_of sorted
    update_labels
taken = refl

demo_selected : (index (monitor "demo").labels "release" == "demo") ≡ true
unfolding index
demo_selected = refl

selected-IsUnchanged_example : IsUnchanged (process (env "demo") (monitor "demo") [])
selected-IsUnchanged_example =
    selected-IsUnchanged (env "demo") (monitor "demo") [] both (prometheus "demo") refl refl
      (
        ((λ l. (true, refl)), (λ l. (index l "release" == "system", refl))),
        (((λ l. (true, refl)), (λ l. (index l "release" == "demo", refl))), tt),
      )
      (inr (inl refl)) (refl, ap yields demo_selected)
