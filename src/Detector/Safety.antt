-- ===== src/Detector/Safety.antt =====
-- What the controllers rely on when they have asked a detector `Ready`.
use grafana_tools.Base.{
  Bool, true, false, Option, none, some, List, [], ◌∷◌, ◌≡◌, refl, inl, inr, ◌&&◌, arith, eq_iff,
  eqb, length, is_some, Option-cases, sym, ◌∙◌,
}
use grafana_tools.Kube.{ObjectKey, key_eq}
use grafana_tools.Kube.Exec.{ok}
use grafana_tools.Detector.{Probe, Names}
use grafana_tools.Detector.Prometheus.{
  Detector, LazyPrometheus, has_key, detect, ready, federated, is_default, delegate, first_default,
  default_prometheus,
}

-- `ready` says true exactly when a detector is known afterwards, and then reports no error.
ready_known :
    (n : Names) (p : Probe) (l : LazyPrometheus)
    → (ready n p l).1 ≡ is_some (ready n p l).0.delegated
unfolding ready
ready_known n p l = ground arith

known_delegate :
    {A : Type 0} (l : LazyPrometheus) (method : Detector → A)
    → is_some l.delegated ≡ true
    → (d : Detector) × (delegate l method ≡ ok (method d))
known_delegate l method h = elim (Option-cases l.delegated) [
  | inl e ↦ absurd (ground arith)
  | inr (d, e) ↦ (d, ground arith)
]

-- When `ready` has said true, a method of the detector returns a value: it does not panic.
pub ready-delegate :
    {A : Type 0} (n : Names) (p : Probe) (l : LazyPrometheus) (method : Detector → A)
    → (ready n p l).1 ≡ true
    → (d : Detector) × (delegate (ready n p l).0 method ≡ ok (method d))
ready-delegate n p l method h = known_delegate (ready n p l).0 method (sym (ready_known n p l) ∙ h)

-- `ready` asked again and again, each time of another state of the cluster.
abbrev pub rounds : Names → LazyPrometheus → List Probe → LazyPrometheus
rounds n l [] = l
rounds n l (p ∷ ps) = rounds n (ready n p l).0 ps

ready_of_known :
    (n : Names) (p : Probe) (l : LazyPrometheus)
    → is_some l.delegated ≡ true
    → ready n p l ≡ (l, true, none)
unfolding ready
ready_of_known n p l h = ground arith

rounds_of_known :
    (n : Names) (l : LazyPrometheus) (ps : List Probe)
    → is_some l.delegated ≡ true
    → rounds n l ps ≡ l
rounds_of_known n l [] h = refl
rounds_of_known n l (p ∷ ps) h = rw (ready_of_known n p l h) (rounds_of_known n l ps h)

-- Once `ready` has said true, the detector is settled: whatever the cluster looks like in later
-- rounds, it is not changed.
pub ready_latched :
    (n : Names) (p : Probe) (l : LazyPrometheus) (ps : List Probe)
    → (ready n p l).1 ≡ true
    → rounds n (ready n p l).0 ps ≡ (ready n p l).0
ready_latched n p l ps h = rounds_of_known n (ready n p l).0 ps (sym (ready_known n p l) ∙ h)

abbrev pub start : LazyPrometheus
start = record { delegated = none }

-- The first detection that succeeds federates exactly when the cluster is managed by Rancher and
-- lists Rancher's monitoring Prometheus.
pub federated-ready :
    (n : Names) (p : Probe) (items : List ObjectKey)
    → p.list ≡ inr items
    → (ready n p start).1 ≡ true
    → delegate (ready n p start).0 federated
      ≡ ok (p.is_rancher_managed && has_key n.rancher_monitoring items)
unfolding ready detect federated
federated-ready n p items e h = ground arith

key_eq-eq : (a b : ObjectKey) → key_eq a b ≡ true → a ≡ b
key_eq-eq a b h = ground (arith, eq_iff a.namespace b.namespace, eq_iff a.name b.name)

only_key :
    (items : List ObjectKey) (a b : ObjectKey)
    → eqb (length items) 1 ≡ true
    → has_key a items ≡ true
    → has_key b items ≡ true
    → a ≡ b
only_key [] a b one ha hb = cc
only_key (x ∷ y ∷ r) a b one ha hb = absurd (ground arith)
only_key (x ∷ []) a b one ha hb = ground (arith, key_eq-eq x a, key_eq-eq x b)

abbrev is_default_of : Names → Option Detector → ObjectKey → Bool
is_default_of n none k = false
is_default_of n (some d) k = is_default n d k

-- Of the Prometheus objects listed when the detector was found, at most one is the default.
pub default_unique :
    (n : Names) (p : Probe) (items : List ObjectKey) (a b : ObjectKey)
    → p.list ≡ inr items
    → has_key a items ≡ true
    → has_key b items ≡ true
    → delegate (ready n p start).0 (λ d. is_default n d a) ≡ ok true
    → delegate (ready n p start).0 (λ d. is_default n d b) ≡ ok true
    → a ≡ b
unfolding ready detect is_default
default_unique n p items a b e ha hb da db = ground (
  arith,
  only_key items a b,
  key_eq-eq a n.rancher_monitoring,
  key_eq-eq b n.rancher_monitoring,
  key_eq-eq a n.openshift_user_workload,
  key_eq-eq b n.openshift_user_workload,
)

first_default_sound :
    (is_def : ObjectKey → Bool) (ps : List ObjectKey) {p : ObjectKey}
    → first_default is_def ps ≡ some p
    → (has_key p ps ≡ true) × (is_def p ≡ true)
unfolding first_default
first_default_sound is_def [] h = cc
first_default_sound is_def (x ∷ ps) {p} h = ground (
  arith,
  first_default_sound is_def ps {p = p},
  eq_iff x.namespace p.namespace,
  eq_iff x.name p.name,
)

-- A Prometheus that is chosen is one of the list, and on OpenShift it is one that the detector calls
-- the default.
pub default_prometheus_lem :
    (openshift_cluster : Bool) (is_def : ObjectKey → Bool) (ps : List ObjectKey) {p : ObjectKey}
    → default_prometheus openshift_cluster is_def ps ≡ some p
    → (has_key p ps ≡ true) × ((openshift_cluster ≡ true) → is_def p ≡ true)
unfolding default_prometheus
default_prometheus_lem o is_def [] h = cc
default_prometheus_lem o is_def (x ∷ ps) {p} h = ground (
  arith,
  first_default_sound is_def (x ∷ ps) {p = p},
  eq_iff x.namespace p.namespace,
  eq_iff x.name p.name,
)
