-- ===== src/ServiceMonitor/Federation.antt =====
-- The reconciler of federation_controller.go: a service monitor that is copied to the Prometheus of every
-- Rancher project, with the services, endpoints and secrets that it needs.
pub mod Copies
pub mod Reconcile
pub mod Contained
use grafana_tools.Base.{
  String, ℕ, Bool, true, false, not, Option, none, some, List, [], ◌∷◌, ◌++◌, map, ◌&&◌, ◌==◌, Dict,
  index, lookup, erase, concat, if◌then◌else◌,
}
use grafana_tools.Kube.{ObjectKey, key_eq, Error, Reply, done, ignore_not_found}
use grafana_tools.Kube.Exec.{
  Answer, yields, fails, Exec, pure, fail, crash, ask, call, attempt, branch, check, ◌>>=◌, ◌>>◌,
}
use grafana_tools.ServiceMonitor.Ports
use grafana_tools.ServiceMonitor.Ports.{ServicePort, EndpointPort, Subset, copy_ports, copy_subsets}
use grafana_tools.ServiceMonitor.Auto.{has_value}

-- `monitoringv1.RelabelConfig`; the fields that are not set here are in `rest`, blank where they are zero.
pub record Relabel : Type 0 where
  pub action : String
  pub source_labels : List String
  pub regex : String
  pub rest : String

pub record Endpoint : Type 0 where
  pub honor_labels : Bool
  pub metric_relabels : List Relabel
  pub ca_secret : Option String
  pub rest : String

pub record ServiceMonitor : Type 0 where
  pub key : ObjectKey
  pub labels : Dict String
  pub namespaces : List String
  pub endpoints : List Endpoint
  pub rest : String

pub record Prometheus : Type 0 where
  pub key : ObjectKey
  pub monitor_labels : Dict String

pub record Namespace : Type 0 where
  pub name : String
  pub labels : Dict String

pub record Service : Type 0 where
  pub key : ObjectKey
  pub labels : Dict String
  pub annotations : Dict String
  pub is_cluster_ip : Bool
  pub spec : Ports.Service String

pub record Endpoints : Type 0 where
  pub labels : Dict String
  pub annotations : Dict String
  pub subsets : List (Subset String)

pub record Secret : Type 0 where
  pub key : ObjectKey
  pub contents : Dict String

-- A call that changes something, with its outcome. What is copied is named by its key.
pub data Event : Type 0 where
  labelled : Prometheus → Answer ServiceMonitor → Event
  copied_monitor copied_service copied_endpoints copied_secret :
      ObjectKey → Answer (Unit {0}) → Event

-- The texts that the libraries define.
pub record Texts : Type 0 where
  pub prometheus_key : String
  pub federated_value : String
  pub project_key : String

-- `selector` is whether the selector of the service monitor can be read, `select` lists the services that the selector of the service monitor matches in a namespace, and
-- `select_namespaces` the namespaces that the selector of a Prometheus matches; `overwrite` is
-- `OverwriteKeys`, `sort` is `sort.Strings`. The detector is `ready`, `federated`, `is_default` and
-- `default_prometheus`; the last is `DefaultPrometheus` of the sorted list.
pub record Env : Type 0 where
  pub texts : Texts
  pub get : List Event → Answer ServiceMonitor
  pub list : List Event → Answer (List Prometheus)
  pub ready : List Event → Answer Bool
  pub federated : Bool
  pub is_default : ObjectKey → Bool
  pub default_prometheus : List Prometheus → Option Prometheus
  pub selector : ServiceMonitor → Answer (Unit {0})
  pub select : List Event → ServiceMonitor → String → Answer (List Service)
  pub select_namespaces : List Event → Prometheus → Answer (List Namespace)
  pub get_secret : List Event → ObjectKey → Answer Secret
  pub get_endpoints : List Event → ObjectKey → Answer Endpoints
  pub overwrite : Dict String → Dict String → Dict String
  pub sort : List String → List String
  pub aggregate : Error → List Error → Error
  pub label :
      List Event → ServiceMonitor → (ServiceMonitor → ServiceMonitor) → Answer ServiceMonitor
  pub write_monitor : List Event → ObjectKey → (ServiceMonitor → ServiceMonitor) → Answer (Unit {0})
  pub write_service : List Event → ObjectKey → (Service → Service) → Answer (Unit {0})
  pub read_endpoints : List Event → ObjectKey → Answer Endpoints
  pub write_endpoints : List Event → ObjectKey → Endpoints → Answer (Unit {0})
  pub write_secret : List Event → ObjectKey → Secret → Answer (Unit {0})
