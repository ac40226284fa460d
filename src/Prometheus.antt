-- ===== src/Prometheus.antt =====
-- pkg/controllers/prometheus: a Prometheus registered with the hub, and what is written for it.
pub mod Project
pub mod Bindings
pub mod Setup
pub mod Reconcile
use grafana_tools.Base.{
  String, ℕ, Bool, true, false, Option, none, some, List, [], ◌∷◌, ◌==◌, Dict, assign,
  if◌then◌else◌,
}
use grafana_tools.Kube.{ObjectKey, Error}
use grafana_tools.Kube.Exec.{Answer}
use grafana_tools.Grafana.State.{PersesConfiguration}
use grafana_tools.Detector.{Names, NamedPort, ServiceSpec}
use grafana_tools.Detector.Prometheus.{Detector}
use grafana_tools.Rancher.{Secret, RancherToken}
use grafana_tools.Hub.{Backend}

-- A `monitoringv1.Prometheus`. The labels of the selectors are those of `LabelsForLabelSelector`; the
-- namespace selector is none where it is nil, and stands for its match labels.
pub record Prometheus : Type 0 where
  pub key : ObjectKey
  pub is_deleted : Bool
  pub finalizers : List String
  pub external_labels : Dict String
  pub namespace_selector : Option (Dict String)
  pub service_monitor_labels : Dict String
  pub rule_labels : Dict String

pub record ClusterMetadata : Type 0 where
  pub name : String
  pub uid : String
  pub state : String

-- A `core.Service`, and a `rbac.RoleBinding` with what its role and subjects name.
pub record Service : Type 0 where
  pub key : ObjectKey
  pub ports : List NamedPort

pub record Subject : Type 0 where
  pub kind : String
  pub name : String
  pub namespace : String

pub record RoleBinding : Type 0 where
  pub owner : String
  pub role : String
  pub subjects : List Subject
  pub annotations : Dict String

-- `GrafanaDatasourceResponse` and `PersesDatasourceResponse`
pub record GrafanaResponse : Type 0 where
  pub url : String
  pub bearer_token : String
  pub datasource : String
  pub folder_id : Option ℕ

pub record PersesResponse : Type 0 where
  pub url : String
  pub bearer_token : String
  pub config : PersesConfiguration

-- `mona.PrometheusConfig`; basic auth and client certificates are always empty.
pub record Config : Type 0 where
  pub url : String
  pub service : Option ServiceSpec
  pub bearer_token : String
  pub ca : String

-- `mona.PrometheusContext`, as far as it differs from one registration to another.
pub record Context : Type 0 where
  pub project_id : String
  pub is_default : Bool

-- The texts that the libraries define.
pub record Texts : Type 0 where
  pub finalizer : String
  pub registered_key : String
  pub token_id_key : String
  pub helm_project_key : String
  pub self_namespace : String

-- Where the preset of a Prometheus stands.
pub data Scope : Type 0 where
  cluster_scope : Scope
  project_scope : (namespace : String) → Scope

pub record Preset : Type 0 where
  pub service_monitor_labels : Dict String
  pub alert_labels : Dict String

-- What the parameters of an AppBinding say.
pub data Parameters : Type 0 where
  grafana_parameters : (datasource : String) → (folder_id : Option ℕ) → Parameters
  perses_parameters : PersesConfiguration → Parameters

-- The object that a CreateOrPatch of an AppBinding leaves, in the fields that it sets; the CA bundle is
-- empty where there is none.
pub record Binding : Type 0 where
  pub owner : ObjectKey
  pub annotations : Dict String
  pub type : String
  pub app_ref : Option ObjectKey
  pub url : Option String
  pub service : Option ServiceSpec
  pub ca_bundle : String
  pub server_name : String
  pub secret : Option String
  pub parameters : Option Parameters

pub data Change : Type 0 where
  add_finalizer remove_finalizer : Change

-- A call that changes something, with its outcome.
pub data Event : Type 0 where
  labelled : Answer Prometheus → Event
  patched : Change → Answer Prometheus → Event
  wrote_service_account : ObjectKey → Answer (Unit {0}) → Event
  wrote_cluster_role : Answer (Unit {0}) → Event
  wrote_role_binding : Answer RoleBinding → Event
  wrote_preset : Scope → Preset → Answer (Unit {0}) → Event
  deleted_preset : Scope → Answer (Unit {0}) → Event
  registered_grafana : Context → Config → Answer GrafanaResponse → Event
  registered_perses : Context → Config → Answer PersesResponse → Event
  unregistered : Backend → Context → Answer (Unit {0}) → Event
  wrote_prometheus_binding : Answer (Unit {0}) → Event
  wrote_binding : Backend → Answer (Unit {0}) → Event
  wrote_secret : Backend → String → Answer (Unit {0}) → Event
  marked : Answer RoleBinding → Event

-- The answers of the cluster, the hub, Rancher and the libraries. `ready` is the detector behind
-- `lazyPrometheus`, where `Ready` says true.
pub record Env : Type 0 where
  pub texts : Texts
  pub names : Names
  pub rancher_secret_name : String
  pub has_client : Bool
  pub ca_cert : String
  pub get : List Event → Answer Prometheus
  pub ready : List Event → Answer (Option Detector)
  pub cluster_metadata : List Event → Answer ClusterMetadata
  pub system_project : List Event → Answer (Option String)
  pub get_service : List Event → ObjectKey → Answer Service
  pub get_secret : List Event → ObjectKey → Answer Secret
  pub decode_token : List Event → String → Answer RancherToken
  pub is_ace_spoke : List Event → Bool
  pub token_secret : List Event → ObjectKey → Answer Secret
  pub apps_domain : List Event → Answer String
  pub service_signer : List Event → Answer String
  pub service_reference : ServiceSpec → Answer ServiceSpec
  pub label : List Event → Prometheus → Answer Prometheus
  pub patch : List Event → Prometheus → (Prometheus → Prometheus) → Answer Prometheus
  pub write_service_account : List Event → ObjectKey → Answer (Unit {0})
  pub write_cluster_role : List Event → Answer (Unit {0})
  pub bind : List Event → String → (RoleBinding → RoleBinding) → Answer RoleBinding
  pub write_preset : List Event → Scope → Preset → Answer (Unit {0})
  pub delete_preset : List Event → Scope → Answer (Unit {0})
  pub register_grafana : List Event → Context → Config → Answer GrafanaResponse
  pub register_perses : List Event → Context → Config → Answer PersesResponse
  pub unregister : List Event → Backend → Context → Answer (Unit {0})
  pub write_binding : List Event → ObjectKey → (Binding → Binding) → Answer (Unit {0})
  pub write_secret : List Event → ObjectKey → String → Answer (Unit {0})
  pub with_finalizer : List String → String → List String
  pub without_finalizer : List String → String → List String
