-- ===== src/Detector/Prometheus.antt =====
-- pkg/detector/prometheus.go
use grafana_tools.Base.{
  String, ℕ, Bool, true, false, Option, none, some, List, [], ◌∷◌, ◌||◌, ◌==◌, inl, inr, length,
  is_empty, eqb, if◌then◌else◌, itoa,
}
use grafana_tools.Kube.{ObjectKey, key_eq}
use grafana_tools.Kube.Exec.{Outcome, ok, panic}
use grafana_tools.Detector.{
  Probe, Names, NamedPort, ServiceSpec, DetectError, unknown, not_ready, list_failed,
}

-- The three implementations of `PrometheusDetector` behind `lazyPrometheus`.
pub data Detector : Type 0 where
  openshift : Detector
  rancher : Detector
  standalone : (is_openshift is_rancher singleton : Bool) → Detector

pub record LazyPrometheus : Type 0 where
  pub delegated : Option Detector

-- The loop that looks for one well-known object.
abbrev pub has_key : ObjectKey → List ObjectKey → Bool
has_key k [] = false
has_key k (item ∷ items) = key_eq item k || has_key k items

detect_items : Names → Probe → List ObjectKey → LazyPrometheus → LazyPrometheus × Option DetectError
detect_items n p items l =
    if is_empty items
    then (l, some unknown)
    else if p.is_rancher_managed
    then (if has_key n.rancher_monitoring items
        then (record { delegated = some rancher }, none)
        else (record { delegated = some (standalone false true (eqb (length items) 1)) }, none))
    else if p.is_openshift_managed
    then (if has_key n.openshift_user_workload items
        then (record { delegated = some openshift }, none)
        else (l, some not_ready))
    else (record { delegated = some (standalone false false (eqb (length items) 1)) }, none)

unfoldable pub detect : Names → Probe → LazyPrometheus → LazyPrometheus × Option DetectError
unfolding detect_items
detect n p l = elim p.list [
  | inl e ↦ (l, some (list_failed e))
  | inr items ↦ detect_items n p items l
]

abbrev after_detect :
    LazyPrometheus × Option DetectError → LazyPrometheus × Bool × Option DetectError
after_detect (l, some not_ready) = (l, false, none)
after_detect (l, some e) = (l, false, some e)
after_detect (l, none) = (l, true, none)

unfoldable pub ready : Names → Probe → LazyPrometheus → LazyPrometheus × Bool × Option DetectError
unfolding detect
ready n p l = elim l.delegated [ none ↦ after_detect (detect n p l) | some d ↦ (l, true, none) ]

unfoldable pub openshift_managed : Detector → Bool
openshift_managed openshift = true
openshift_managed rancher = false
openshift_managed (standalone o r s) = o

unfoldable pub rancher_managed : Detector → Bool
rancher_managed openshift = false
rancher_managed rancher = true
rancher_managed (standalone o r s) = r

unfoldable pub federated : Detector → Bool
federated openshift = false
federated rancher = true
federated (standalone o r s) = false

unfoldable pub is_default : Names → Detector → ObjectKey → Bool
is_default n openshift prom = key_eq prom n.openshift_user_workload
is_default n rancher prom = key_eq prom n.rancher_monitoring
is_default n (standalone o r s) prom = s

unfoldable pub service_key : Names → Detector → ObjectKey → ObjectKey
service_key n openshift prom = n.openshift_thanos_querier
service_key n rancher prom = prom
service_key n (standalone o r s) prom = prom

unfoldable pub find_port : List NamedPort → String → Option ℕ
find_port [] port_name = none
find_port (p ∷ ports) port_name =
    if p.name == port_name then some p.port else find_port ports port_name

abbrev pub port_text : Option ℕ → String
port_text none = ""
port_text (some p) = itoa p

abbrev pub port_prometheus : String
port_prometheus = "http-web"

unfoldable pub service : Names → Detector → ObjectKey → List NamedPort → ServiceSpec
unfolding find_port
service n openshift prom ports = record {
  scheme = "https";
  namespace = n.openshift_thanos_querier.namespace;
  name = n.openshift_thanos_querier.name;
  port = port_text (find_port ports "web");
}
service n _ prom ports = record {
  scheme = "http";
  namespace = prom.namespace;
  name = prom.name;
  port = port_text (find_port ports port_prometheus);
}

-- A method of `lazyPrometheus` delegates, and panics before a detector is known.
abbrev pub delegate : {A : Type 0} → LazyPrometheus → (Detector → A) → Outcome A
delegate l method = elim l.delegated [ none ↦ panic "not ready" | some d ↦ ok (method d) ]

-- `slices.IndexFunc` and the element there
unfoldable pub first_default : (ObjectKey → Bool) → List ObjectKey → Option ObjectKey
first_default is_def [] = none
first_default is_def (p ∷ proms) = if is_def p then some p else first_default is_def proms

unfoldable pub default_prometheus : Bool → (ObjectKey → Bool) → List ObjectKey → Option ObjectKey
unfolding first_default
default_prometheus openshift_cluster is_def [] = none
default_prometheus openshift_cluster is_def (p ∷ proms) =
    if openshift_cluster then first_default is_def (p ∷ proms) else some p
