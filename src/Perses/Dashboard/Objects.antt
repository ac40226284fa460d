-- ===== src/Perses/Dashboard/Objects.antt =====
-- The objects and answers of the reconciler of a PersesDashboard.
use grafana_tools.Base.{String, ℕ, Bool, Option, List, [], ◌∷◌}
use grafana_tools.Kube.{ObjectKey}
use grafana_tools.Kube.Exec.{Answer}
use grafana_tools.Grafana.State.{AppBinding, PersesConfiguration, StateMap}
use grafana_tools.Net.{Client, Response}
use grafana_tools.Perses.Requests.{Texts, Http}
use grafana_tools.Perses.Variables.{PersesModel}

pub data Phase : Type 0 where
  unset processing current phase_failed terminating : Phase

pub data ConditionType : Type 0 where
  ready_condition failed_condition : ConditionType

pub record Condition : Type 0 where
  pub type : ConditionType
  pub reason : String

-- `openvizapi.PersesDashboardReference`
pub record DashboardRef : Type 0 where
  pub name : String
  pub project_name : String
  pub folder_name : String
  pub state : Option String

-- A PersesDashboard; the model is what `json.Unmarshal` reads of it, where there is one.
pub record Dashboard : Type 0 where
  pub key : ObjectKey
  pub generation : ℕ
  pub is_deleted : Bool
  pub finalizers : List String
  pub model : Option (Answer PersesModel)
  pub phase : Phase
  pub reason : String
  pub observed_generation : ℕ
  pub conditions : List Condition
  pub dashboard : Option DashboardRef

abbrev pub finalizer : String
finalizer = "persesdashboard.openviz.dev/finalizer"

-- The functions that the reconciler hands to `PatchStatus` and `CreateOrPatch`, by name.
pub data Change : Type 0 where
  terminate process add_finalizer : Change
  record_failure : String → Change
  record_success : String → PersesConfiguration → (state : String) → Change

-- A call that changes something, with its outcome.
pub data Event : Type 0 where
  patched_status : Change → Answer Dashboard → Event
  patched : Change → Answer Dashboard → Event
  released : Answer (Unit {0}) → Event
  submitted : PersesModel → Answer Response → Event
  deleted_remote : DashboardRef → Answer Response → Event
  warned : String → Event
  cached : StateMap → Event

-- The answers of the libraries, of the cluster and of Perses. `connect` stands for
-- `perses.NewPersesClient`.
pub record Env : Type 0 where
  pub get : List Event → Answer Dashboard
  pub patch_status : List Event → Dashboard → (Dashboard → Dashboard) → Answer Dashboard
  pub create_or_patch : List Event → Dashboard → (Dashboard → Dashboard) → Answer Dashboard
  pub patch : List Event → Dashboard → Answer (Unit {0})
  pub get_perses : List Event → Dashboard → Answer AppBinding
  pub connect : List Event → Dashboard → Answer Client
  pub http : List Event → Http
  pub texts : Texts
  pub hash : String → String
  pub set_condition : List Condition → Condition → List Condition
  pub with_finalizer : List String → String → List String
  pub without_finalizer : List String → String → List String
  pub requeue_after_duration : ℕ

abbrev pub state_map : List Event → StateMap
state_map [] = []
state_map (cached m ∷ t) = m
state_map (_ ∷ t) = state_map t
