-- ===== src/Detector/Alertmanager.antt =====
-- pkg/detector/alertmanager.go
use grafana_tools.Base.{
  Bool, true, false, Option, none, some, List, [], ◌∷◌, ◌||◌, inl, inr, length, is_empty, eqb,
  if◌then◌else◌,
}
use grafana_tools.Kube.{ObjectKey, key_eq}
use grafana_tools.Kube.Exec.{Outcome, ok, panic}
use grafana_tools.Detector.{Probe, Names, DetectError, unknown, not_ready, list_failed}

-- The three implementations of `AlertmanagerDetector` behind `lazyAlertmanager`.
pub data Detector : Type 0 where
  openshift : Detector
  rancher : Detector
  standalone : (is_openshift is_rancher singleton : Bool) → Detector

pub record LazyAlertmanager : Type 0 where
  pub delegated : Option Detector

-- The loop that looks for one well-known object.
abbrev pub has_key : ObjectKey → List ObjectKey → Bool
has_key k [] = false
has_key k (item ∷ items) = key_eq item k || has_key k items

detect_items :
    Names → Probe → List ObjectKey → LazyAlertmanager → LazyAlertmanager × Option DetectError
detect_items n p items l =
    if is_empty items
    then (l, some unknown)
    else if p.is_rancher_managed
    then (if has_key n.rancher_monitoring items
        then (record { delegated = some rancher }, none)
        else (record { delegated = some (standalone false true (eqb (length items) 1)) }, none))
    else if p.is_openshift_managed
    then (if has_key n.openshift_user_workload items
        then (record { delegated = some openshift }, none)
        else (l, some not_ready))
    else (record { delegated = some (standalone false false (eqb (length items) 1)) }, none)

unfoldable pub detect : Names → Probe → LazyAlertmanager → LazyAlertmanager × Option DetectError
unfolding detect_items
detect n p l = elim p.list [
  | inl e ↦ (l, some (list_failed e))
  | inr items ↦ detect_items n p items l
]

abbrev after_detect :
    LazyAlertmanager × Option DetectError → LazyAlertmanager × Bool × Option DetectError
after_detect (l, some not_ready) = (l, false, none)
after_detect (l, some e) = (l, false, some e)
after_detect (l, none) = (l, true, none)

unfoldable pub ready :
    Names → Probe → LazyAlertmanager → LazyAlertmanager × Bool × Option DetectError
unfolding detect
ready n p l = elim l.delegated [ none ↦ after_detect (detect n p l) | some d ↦ (l, true, none) ]

unfoldable pub openshift_managed : Detector → Bool
openshift_managed openshift = true
openshift_managed rancher = false
openshift_managed (standalone o r s) = o

unfoldable pub rancher_managed : Detector → Bool
rancher_managed openshift = false
rancher_managed rancher = true
rancher_managed (standalone o r s) = r

unfoldable pub federated : Detector → Bool
federated openshift = false
federated rancher = true
federated (standalone o r s) = false

unfoldable pub is_default : Names → Detector → ObjectKey → Bool
is_default n openshift am = key_eq am n.openshift_user_workload
is_default n rancher am = key_eq am n.rancher_monitoring
is_default n (standalone o r s) am = s

-- A method of `lazyAlertmanager` delegates, and panics before a detector is known.
abbrev pub delegate : {A : Type 0} → LazyAlertmanager → (Detector → A) → Outcome A
delegate l method = elim l.delegated [ none ↦ panic "not ready" | some d ↦ ok (method d) ]
