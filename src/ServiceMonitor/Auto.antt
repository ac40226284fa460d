-- ===== src/ServiceMonitor/Auto.antt =====
-- pkg/controllers/servicemonitor/auto_controller.go: which Prometheus a service monitor is for.
pub mod Labelled
pub mod Selected
use grafana_tools.Base.{
  String, ℕ, Bool, true, false, not, Option, none, some, List, [], ◌∷◌, map, ◌&&◌, ◌||◌, ◌==◌, Dict,
  lookup, index, is_empty, if◌then◌else◌,
}
use grafana_tools.ServiceMonitor.Order.{sorted}
use grafana_tools.Kube.{ObjectKey, key_eq, Error, Reply, done, ignore_not_found}
use grafana_tools.Kube.Exec.{
  Answer, yields, fails, Exec, pure, fail, ask, look, call, branch, check, ◌>>=◌, ◌>>◌,
}
use grafana_tools.Detector.Prometheus.{default_prometheus}

-- What `LabelSelectorAsSelector` makes of a selector.
abbrev pub Selector : Type 0
Selector = Answer (Dict String → Bool)

-- A Prometheus, as to its selectors and the labels of `LabelsForLabelSelector`.
pub record Prometheus : Type 0 where
  pub key : ObjectKey
  pub namespace_selector : Selector
  pub monitor_selector : Selector
  pub monitor_labels : Dict String

pub record ServiceMonitor : Type 0 where
  pub key : ObjectKey
  pub labels : Dict String

-- The labels of a service monitor were overwritten for a Prometheus.
pub data Event : Type 0 where
  labelled : Prometheus → Answer (Unit {0}) → Event

-- The texts that the libraries define.
pub record Texts : Type 0 where
  pub prometheus_key : String
  pub auto_value : String
  pub rancher_namespace : String
  pub helm_project_key : String

-- `ready` and `is_default` are the detector's; `system_project` is the identifier without the other
-- results; `overwrite` is `OverwriteKeys`.
pub record Env : Type 0 where
  pub texts : Texts
  pub get : List Event → Answer ServiceMonitor
  pub ready : List Event → Answer Bool
  pub list : List Event → Answer (List Prometheus)
  pub namespace_labels : List Event → String → Answer (Dict String)
  pub is_openshift_managed : Bool
  pub is_rancher_managed : Bool
  pub is_default : ObjectKey → Bool
  pub system_project : List Event → String
  pub project_of : List Event → String → Answer (Option String)
  pub overwrite : Dict String → Dict String → Dict String
  pub patch : List Event → ServiceMonitor → (ServiceMonitor → ServiceMonitor) → Answer (Unit {0})

abbrev pub with_key : ObjectKey → List Prometheus → Option Prometheus
with_key k [] = none
with_key k (p ∷ ps) = if key_eq p.key k then some p else with_key k ps

abbrev pub key_of : Prometheus → ObjectKey
key_of p = p.key

abbrev pub at_key : Option ObjectKey → List Prometheus → Option Prometheus
at_key none ps = none
at_key (some k) ps = with_key k ps

-- A selector at labels: the error of one that cannot be read, and otherwise whether it matches.
abbrev pub matches : Selector → Dict String → Answer Bool
matches (yields f) labels = yields (f labels)
matches (fails e) labels = fails e

-- The Prometheus of the loop of `HasProm`, the next one where this one does not select.
abbrev pub selects :
    Prometheus → Answer Bool → Answer Bool → Answer (Option Prometheus) → Answer (Option Prometheus)
selects p (fails e) m rest = fails e
selects p (yields false) m rest = rest
selects p (yields true) (fails e) rest = fails e
selects p (yields true) (yields false) rest = rest
selects p (yields true) (yields true) rest = yields (some p)

unfoldable pub has_prom : Dict String → Dict String → List Prometheus → Answer (Option Prometheus)
has_prom namespace labels [] = yields none
has_prom namespace labels (p ∷ ps) =
    selects p (matches p.namespace_selector namespace) (matches p.monitor_selector labels)
      (has_prom namespace labels ps)

-- The system Prometheus, and that of a project by its identifier.
unfoldable pub find_system : String → List Prometheus → Option Prometheus
find_system ns [] = none
find_system ns (p ∷ ps) = if p.key.namespace == ns then some p else find_system ns ps

abbrev pub chosen :
    Prometheus → Answer Bool → Answer (Option Prometheus) → Answer (Option Prometheus)
chosen p (fails e) rest = fails e
chosen p (yields true) rest = yields (some p)
chosen p (yields false) rest = rest

unfoldable pub find_project : String → Dict String → List Prometheus → Answer (Option Prometheus)
find_project system project [] = yields none
find_project system project (p ∷ ps) =
    let rest = find_project system project ps in
    if p.key.namespace == system then rest else chosen p (matches p.namespace_selector project) rest

abbrev pub in_no_project : Option String → String → Bool
in_no_project none system = true
in_no_project (some id) system = id == system

abbrev pub has_value : Option String → String → Bool
has_value none v = false
has_value (some w) v = w == v

module _ (env : Env) where
  unfoldable pub update_labels : Prometheus → ServiceMonitor → Exec Event Reply
  update_labels p m = do
    call (λ t. env.patch t m (λ x. record x { labels = env.overwrite x.labels p.monitor_labels }))
        (labelled p)
    pure done

  abbrev pub update_for : Option Prometheus → ServiceMonitor → Exec Event Reply
  update_for none m = pure done
  update_for (some p) m = update_labels p m

  -- The default Prometheus, of a list that is sorted.
  unfoldable pub default_of : List Prometheus → Option Prometheus
  unfolding default_prometheus
  default_of ps =
      at_key (default_prometheus env.is_openshift_managed env.is_default (map key_of ps)) ps

  -- The end of `Reconcile`: the Prometheus of the project.
  unfoldable pub for_project : ServiceMonitor → List Prometheus → Exec Event Reply
  unfolding index find_project
  for_project m ps = do
    labels ← ask (λ t. env.namespace_labels t m.key.namespace)
    let id = index labels env.texts.helm_project_key
    branch (id == "") (pure done) (do
      p ←
          ask (λ t.
            find_project env.texts.rancher_namespace ((env.texts.helm_project_key, id) ∷ []) ps)
      update_for p m)

  abbrev pub for_system : Option Prometheus → ServiceMonitor → List Prometheus → Exec Event Reply
  for_system none m ps = for_project m ps
  for_system (some p) m ps = update_labels p m

  unfoldable pub on_rancher : ServiceMonitor → List Prometheus → Exec Event Reply
  unfolding find_system ignore_not_found check pure
  on_rancher m ps =
      check (ask (λ t. env.project_of t m.key.namespace))
        (λ e. pure (record { requeue_after = 0; error = ignore_not_found (some e) }))
        λ project. do
          system ← look env.system_project
          branch (in_no_project project system)
              (for_system (find_system env.texts.rancher_namespace ps) m ps) (for_project m ps)

  unfoldable pub assign_prometheus : ServiceMonitor → List Prometheus → Exec Event Reply
  unfolding default_of
  assign_prometheus m ps =
      branch (not env.is_rancher_managed) (update_for (default_of ps) m) (on_rancher m ps)

  abbrev pub unless_selected :
      ServiceMonitor → List Prometheus → Option Prometheus → Exec Event Reply
  unless_selected m ps none = assign_prometheus m (sorted (λ p. p.key) ps)
  unless_selected m ps (some p) = pure done

  unfoldable pub among : ServiceMonitor → List Prometheus → Exec Event Reply
  among m [] = pure done
  among m (p ∷ ps) = do
    labels ← ask (λ t. env.namespace_labels t m.key.namespace)
    found ← ask (λ t. has_prom labels m.labels (p ∷ ps))
    unless_selected m (p ∷ ps) found

  unfoldable pub process : ServiceMonitor → Exec Event Reply
  process m = do
    ready ← ask env.ready
    branch ready
        (branch (has_value (lookup m.labels env.texts.prometheus_key) env.texts.auto_value)
          (check (ask env.list)
            (λ e. pure (record { requeue_after = 0; error = ignore_not_found (some e) })) (among m))
          (pure done))
        (pure done)

  unfoldable pub reconcile : Exec Event Reply
  unfolding check
  reconcile =
      check (ask env.get)
        (λ e. pure (record { requeue_after = 0; error = ignore_not_found (some e) })) process
