-- ===== src/Tests/Detectors.antt =====
-- Detectors on small clusters.
use grafana_tools.Base.{true, false, [], ◌∷◌, ◌≡◌, refl, inr}
use grafana_tools.Kube.{ObjectKey}
use grafana_tools.Kube.Exec.{ok}
use grafana_tools.Detector.{Probe, Names}
use grafana_tools.Detector.Prometheus.{Detector, ready, federated, delegate}
use grafana_tools.Detector.Safety.{ready-delegate, start}

abbrev names : Names
names = record {
  rancher_monitoring = record {
    namespace = "cattle-monitoring-system";
    name = "rancher-monitoring-prometheus";
  };
  openshift_user_workload = record {
    namespace = "openshift-user-workload-monitoring";
    name = "user-workload";
  };
  openshift_thanos_querier = record { namespace = "openshift-monitoring"; name = "thanos-querier" };
}

abbrev system : ObjectKey
system = names.rancher_monitoring

abbrev project : ObjectKey
project = record { namespace = "cattle-project-p1"; name = "prom" }

abbrev managed : Probe
managed = record {
  list = inr (project ∷ system ∷ []);
  is_rancher_managed = true;
  is_openshift_managed = false;
}

abbrev bare : Probe
bare = record { list = inr []; is_rancher_managed = false; is_openshift_managed = false }

ready-managed : (ready names managed start).1 ≡ true
unfolding ready
ready-managed = refl

ready-delegate_example :
    (d : Detector) × (delegate (ready names managed start).0 federated ≡ ok (federated d))
ready-delegate_example = ready-delegate names managed start federated ready-managed
