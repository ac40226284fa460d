-- ===== src/Detector.antt =====
-- pkg/detector: how Prometheus and Alertmanager are deployed in the cluster, found out on demand.
-- What the Kubernetes client answers is a `Probe`; the well-known names are those of the library
-- kmodules.xyz/client-go/cluster. The mutex makes each method one step.
pub mod Prometheus
pub mod Alertmanager
pub mod Safety
use grafana_tools.Base.{String, ℕ, Bool, List, ◌⊎◌}
use grafana_tools.Kube.{ObjectKey, Error}

-- What a detector reads of the cluster: the list of the objects of its kind, or the client's error,
-- and the answers of `IsRancherManaged` and `IsOpenShiftManaged`.
pub record Probe : Type 0 where
  pub list : Error ⊎ List ObjectKey
  pub is_rancher_managed : Bool
  pub is_openshift_managed : Bool

-- The names by which a managed deployment is known.
pub record Names : Type 0 where
  pub rancher_monitoring : ObjectKey
  pub openshift_user_workload : ObjectKey
  pub openshift_thanos_querier : ObjectKey

-- A `core.ServicePort` as far as detectors read it.
pub record NamedPort : Type 0 where
  pub name : String
  pub port : ℕ

-- `mona.ServiceSpec`
pub record ServiceSpec : Type 0 where
  pub scheme : String
  pub namespace : String
  pub name : String
  pub port : String

-- `errUnknown`, `errNotReady`, or an error of the client
pub data DetectError : Type 0 where
  unknown not_ready : DetectError
  list_failed : Error → DetectError
