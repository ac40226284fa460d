-- ===== src/ClientOrg/Config.antt =====
-- The Prometheus that client organizations are shown, and how the hub is to reach it: the choice in
-- `Reconcile` of namespace_controller.go, and `buildPrometheusConfig` of backend.go.
pub mod Agrees
use grafana_tools.Base.{
  String, Bool, none, some, List, Dict, Option, index, ◌==◌, concat, if◌then◌else◌,
}
use grafana_tools.Kube.{ObjectKey, Error, failed}
use grafana_tools.Kube.Exec.{Answer, yields, fails}
use grafana_tools.Kube.Answer.{◌>>=◌, ◌>>◌, refuse_if}
use grafana_tools.Detector.{Names}
use grafana_tools.Detector.Prometheus.{
  Detector, openshift_managed, is_default, service_key, service, default_prometheus,
}
use grafana_tools.Prometheus.{Config, Service}
use grafana_tools.Prometheus.Setup.{trickster, trickster_role}
use grafana_tools.Rancher.{Secret}

-- What is read of the cluster, with the detector behind `lazyPrometheus`; a role binding is read as to
-- its annotations. `is_openshift` is `IsOpenShiftManaged`.
pub record World : Type 0 where
  pub names : Names
  pub registered_key : String
  pub detector : Detector
  pub is_openshift : Bool
  pub prometheuses : Answer (List ObjectKey)
  pub get_service : ObjectKey → Answer Service
  pub get_role_binding : ObjectKey → Answer (Dict String)
  pub apps_domain : Answer String
  pub token_secret : ObjectKey → Answer Secret

abbrev pub unregistered : ObjectKey → Error
unregistered rb = failed (
    concat "rolebinding "
      (concat rb.namespace (concat "/" (concat rb.name " is not registered yet"))))

abbrev pub found : Option ObjectKey → Answer ObjectKey
found none = fails (failed "failed to detect default Prometheus")
found (some p) = yields p

abbrev pub in_namespace : String → String → ObjectKey
in_namespace ns name = record { namespace = ns; name = name }

module _ (w : World) where
  abbrev pub route_config : ObjectKey → Service → Answer Config
  route_config prom svc = do
    domain ← w.apps_domain
    secret ← w.token_secret (in_namespace prom.namespace trickster)
    yields (record {
      url =
          concat "https://"
            (concat svc.key.name (concat "-" (concat svc.key.namespace (concat "." domain))));
      service = none;
      bearer_token = index secret.contents "token";
      ca = "";
    })

  abbrev pub config_for : ObjectKey → Service → Bool → Answer Config
  config_for prom svc is_managed =
      if is_managed
      then route_config prom svc
      else yields (record {
        url = "";
        service = some (service w.names w.detector prom svc.ports);
        bearer_token = "";
        ca = "";
      })

  -- `buildPrometheusConfig`. Outside OpenShift the hub adds the credentials and the CA.
  unfoldable pub build_config : ObjectKey → Service → Answer Config
  unfolding ◌>>=◌ index openshift_managed
  build_config prom svc = do
    annotations ← w.get_role_binding (in_namespace svc.key.namespace trickster_role)
    refuse_if (index annotations w.registered_key == "")
        (unregistered (in_namespace svc.key.namespace trickster_role))
    config_for prom svc (openshift_managed w.detector)

  -- The default Prometheus, its service, and the configuration for it.
  unfoldable pub prometheus_config : Answer Config
  unfolding ◌>>=◌ build_config default_prometheus service_key
  prometheus_config = do
    proms ← w.prometheuses
    prom ← found (default_prometheus w.is_openshift (is_default w.names w.detector) proms)
    svc ← w.get_service (service_key w.names w.detector prom)
    build_config prom svc
