-- ===== src/ClientOrg.antt =====
-- pkg/controllers/namespace and pkg/controllers/clientorg: monitoring for the namespaces of client
-- organizations.
pub mod Copies
pub mod Config
pub mod Backends
pub mod Markers
pub mod Reconcile
pub mod Pinned
use grafana_tools.Base.{String, ℕ, Bool, Dict, Option, none, some, List, concat}

-- The label and annotation keys whose text the libraries define; `registered` is
-- `prometheus.RegisteredKey` and `prometheus_key` is `mona.PrometheusKey`.
pub record Keys : Type 0 where
  pub client_org : String
  pub ace_org_id : String
  pub registered : String
  pub prometheus_key : String

-- `srcRefKey`, `srcHashKey` and `cleanedUpKey`
abbrev pub src_ref_key : String
src_ref_key = "meta.appcode.com/source"

abbrev pub src_hash_key : String
src_hash_key = "meta.appcode.com/hash"

abbrev pub cleaned_up_key : String
cleaned_up_key = "meta.appcode.com/cleaned-up"

abbrev pub ab_client_org_grafana : String
ab_client_org_grafana = "grafana"

abbrev pub ab_client_org_perses : String
ab_client_org_perses = "perses"

-- A `core.Namespace` as the reconciler reads it.
pub record Namespace : Type 0 where
  pub name : String
  pub is_deleted : Bool
  pub finalizers : List String
  pub labels : Dict String
  pub annotations : Dict String

-- `clientorg.MonitoringNamespace`
unfoldable pub monitoring_namespace : String → String
monitoring_namespace client_ns = concat client_ns "-monitoring"
