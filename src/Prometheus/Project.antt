-- ===== src/Prometheus/Project.antt =====
-- The project of a Prometheus, and its preset.
pub mod Quiet
pub mod Found
use grafana_tools.Base.{
  String, ℕ, Bool, true, false, not, Option, none, some, List, [], ◌∷◌, ◌&&◌, ◌==◌, Dict, index,
  is_empty, concat, if◌then◌else◌,
}
use grafana_tools.Kube.{ObjectKey, key_eq, Error, failed}
use grafana_tools.Kube.Exec.{
  Answer, yields, fails, Exec, pure, fail, crash, ask, call, branch, check, ◌>>=◌, ◌>>◌,
}
use grafana_tools.Detector.Prometheus.{Detector, rancher_managed, federated}
use grafana_tools.Prometheus.{
  Prometheus, Scope, cluster_scope, project_scope, Preset, Event, wrote_preset, deleted_preset, Env,
  Context,
}

abbrev pub key_text : ObjectKey → String
key_text k = concat k.namespace (concat "/" k.name)

abbrev pub stack_labels : Dict String
stack_labels = ("release", "kube-prometheus-stack") ∷ []

abbrev pub rancher_labels : Dict String
rancher_labels = ("release", "rancher-monitoring") ∷ []

abbrev pub or_default : Bool → Dict String → Dict String
or_default rancher_default labels =
    if is_empty labels then if rancher_default then rancher_labels else stack_labels else labels

-- `GeneratePresetForPrometheus`
unfoldable pub generate_preset : Detector → Bool → Prometheus → Preset
unfolding rancher_managed
generate_preset d is_default p = record {
  service_monitor_labels = or_default (is_default && rancher_managed d) p.service_monitor_labels;
  alert_labels = or_default (is_default && rancher_managed d) p.rule_labels;
}

abbrev pub project_namespace : String → String
project_namespace project_id = concat "cattle-project-" project_id

module _ (env : Env) where
  abbrev pub system_project : Prometheus → Option String → Exec Event String
  system_project p none =
      fail (failed (concat "failed to detect system projectId for Prometheus " (key_text p.key)))
  system_project p (some id) = pure id

  abbrev pub own_project : Prometheus → Option (Dict String) → Exec Event String
  own_project p none = crash "nil dereference of the namespace selector"
  own_project p (some labels) =
      branch (index labels env.texts.helm_project_key == "")
        (fail (
          failed (
            concat "expected " (
              concat env.texts.helm_project_key (
                concat " label in Prometheus "
                  (concat (key_text p.key) "  spec.serviceMonitorNamespaceSelector"))))))
        (pure (index labels env.texts.helm_project_key))

  -- `NamespaceForProjectSettings`, as to the project; the namespace is `project_namespace` of it.
  unfoldable pub project_of : Prometheus → Exec Event String
  unfolding ◌>>=◌ index
  project_of p =
      branch (key_eq p.key env.names.rancher_monitoring)
        (do found ← ask env.system_project; system_project p found)
        (own_project p p.namespace_selector)

  -- Where the hub is told of a project.
  unfoldable pub context_of : Prometheus → Bool → Exec Event Context
  unfolding ◌>>=◌ project_of
  context_of p is_default =
      branch is_default (pure (record { project_id = ""; is_default = is_default }))
        (do id ← project_of p; pure (record { project_id = id; is_default = is_default }))

  unfoldable pub scope_of : Detector → Prometheus → Bool → Exec Event Scope
  unfolding ◌>>=◌ project_of federated
  scope_of d p is_default =
      branch (federated d && not is_default)
        (do id ← project_of p; pure (project_scope (project_namespace id))) (pure cluster_scope)

  -- `CreatePreset`, with `CreateProjectPreset` and `CreateClusterPreset`.
  unfoldable pub create_preset : Detector → Prometheus → Bool → Exec Event (Unit {0})
  create_preset d p is_default = do
    scope ← scope_of d p is_default
    call (λ t. env.write_preset t scope (generate_preset d is_default p))
        (wrote_preset scope (generate_preset d is_default p))

  -- `CleanupPreset`: an object that is gone is an error here.
  unfoldable pub cleanup_preset : Detector → Prometheus → Bool → Exec Event (Unit {0})
  cleanup_preset d p is_default = do
    scope ← scope_of d p is_default
    call (λ t. env.delete_preset t scope) (deleted_preset scope)
