-- ===== src/Grafana/Dashboard/Objects.antt =====
-- The objects, requests and answers of the reconciler of a GrafanaDashboard.
use grafana_tools.Base.{String, ℕ, Bool, Option, List, [], ◌∷◌}
use grafana_tools.Kube.{ObjectKey, Error}
use grafana_tools.Kube.Exec.{Answer}
use grafana_tools.Json.{Raw}
use grafana_tools.Grafana.State.{AppBinding, StateMap}

pub data Phase : Type 0 where
  unset processing current phase_failed terminating : Phase

pub data ConditionType : Type 0 where
  ready_condition failed_condition : ConditionType

-- `kmapi.Condition` as the reconciler writes it: status true, reason and message alike.
pub record Condition : Type 0 where
  pub type : ConditionType
  pub reason : String

-- `openvizapi.GrafanaDashboardReference`
pub record DashboardRef : Type 0 where
  pub id : Option ℕ
  pub uid : Option String
  pub slug : Option String
  pub url : Option String
  pub org_id : Option ℕ
  pub version : Option ℕ
  pub state : Option String

-- A GrafanaDashboard; `templatize` is `spec.templatize.datasource`, where that is set.
pub record Dashboard : Type 0 where
  pub key : ObjectKey
  pub generation : ℕ
  pub is_deleted : Bool
  pub finalizers : List String
  pub model : Option Raw
  pub templatize : Option Bool
  pub phase : Phase
  pub reason : String
  pub observed_generation : ℕ
  pub conditions : List Condition
  pub dashboard : Option DashboardRef

abbrev pub finalizer : String
finalizer = "grafanadashboard.openviz.dev/finalizer"

-- The body of a request to Grafana; it always asks to overwrite.
pub record Upload : Type 0 where
  pub model : Option Raw
  pub folder_id : ℕ
  pub overwrite : Bool

-- Grafana's answer to an accepted dashboard; each field is a pointer that may be nil.
pub record Accepted : Type 0 where
  pub id : Option ℕ
  pub uid : Option String
  pub slug : Option String
  pub url : Option String
  pub version : Option ℕ

-- An answer of Grafana with, beside an error, the HTTP status where there was a response.
pub data Response (A : Type 0) : Type 0 where
  accepted : A → Response A
  refused : Option ℕ → Error → Response A

-- The functions that the reconciler hands to `PatchStatus` and `CreateOrPatch`, by name.
pub data Change : Type 0 where
  terminate process add_finalizer : Change
  record_failure : String → Bool → Change
  record_success : Accepted → (org : Option ℕ) → (state : String) → Change

-- A call that changes something, with its outcome; `cached` is an assignment to `stateMap`.
pub data Event : Type 0 where
  patched_status : Change → Answer Dashboard → Event
  patched : Change → Answer Dashboard → Event
  released : Answer (Unit {0}) → Event
  submitted : Upload → Response Accepted → Event
  deleted_remote : String → Response (Unit {0}) → Event
  warned : String → Event
  cached : StateMap → Event

-- The answers of the libraries, of the cluster and of Grafana, each of which may depend on the calls
-- made so far. `connect` stands for `grafana.NewGrafanaClient`.
pub record Env : Type 0 where
  pub get : List Event → Answer Dashboard
  pub patch_status : List Event → Dashboard → (Dashboard → Dashboard) → Answer Dashboard
  pub create_or_patch : List Event → Dashboard → (Dashboard → Dashboard) → Answer Dashboard
  pub patch : List Event → Dashboard → Answer (Unit {0})
  pub get_grafana : List Event → Dashboard → Answer AppBinding
  pub connect : List Event → Dashboard → Answer (Unit {0})
  pub set_dashboard : List Event → Upload → Response Accepted
  pub delete_dashboard : List Event → String → Response (Unit {0})
  pub current_org : List Event → Answer (Option ℕ)
  pub hash : String → String
  pub set_condition : List Condition → Condition → List Condition
  pub with_finalizer : List String → String → List String
  pub without_finalizer : List String → String → List String
  pub requeue_after_duration : ℕ

-- The package variable `stateMap`: what was assigned to it last.
abbrev pub state_map : List Event → StateMap
state_map [] = []
state_map (cached m ∷ t) = m
state_map (_ ∷ t) = state_map t
