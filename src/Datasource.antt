-- ===== src/Datasource.antt =====
-- pkg/controllers/openviz/grafanadatasource_controller.go
-- The reconciler of a GrafanaDatasource. The answers of the cluster and of Grafana are an `Env`; the
-- calls that change something are `Event`s, written down with their outcomes.
pub mod Lifecycle
pub mod Rounds
use grafana_tools.Base.{
  String, ℕ, Bool, true, false, not, Option, none, some, List, [], ◌∷◌, ◌==◌, contains, eqb,
  if◌then◌else◌, concat,
}
use grafana_tools.Kube.{ObjectKey, Error, failed, Reply, done, failing, message, ignore_not_found}
use grafana_tools.Kube.Exec.{Answer, Exec, pure, fail, ask, call, emit, branch, check, ◌>>=◌, ◌>>◌}

pub data Phase : Type 0 where
  unset processing current phase_failed terminating : Phase

-- `kmapi.Condition` as the reconcilers write it: type, status true, reason and message alike.
pub record Condition : Type 0 where
  pub type : String
  pub reason : String

pub record DatasourceSpec : Type 0 where
  pub org_id : ℕ
  pub name : String
  pub type : String
  pub access : String
  pub url : String
  pub is_default : Bool

-- A GrafanaDatasource: the metadata, the spec and the status that the reconciler reads or writes.
pub record Datasource : Type 0 where
  pub key : ObjectKey
  pub generation : ℕ
  pub is_deleted : Bool
  pub finalizers : List String
  pub spec : DatasourceSpec
  pub phase : Phase
  pub reason : String
  pub observed_generation : ℕ
  pub conditions : List Condition
  pub datasource_id : Option ℕ

-- `sdk.Datasource`, the body of a request to Grafana; an id of 0 is unset.
pub record Remote : Type 0 where
  pub id : ℕ
  pub spec : DatasourceSpec

abbrev pub finalizer : String
finalizer = "grafanadatasource.openviz.dev/finalizer"

abbrev pub condition_failed : String
condition_failed = "Failed"

-- The functions that the reconciler hands to `PatchStatus` and `CreateOrPatch`, by name.
pub data Change : Type 0 where
  terminate process add_finalizer release : Change
  record_created : Option ℕ → Change
  record_updated : ℕ → Change
  record_failure : String → Change

-- A call that changes something outside, with its outcome.
pub data Event : Type 0 where
  patched_status : Change → Answer Datasource → Event
  patched : Change → Answer Datasource → Event
  created_remote : Remote → Answer (Option ℕ) → Event
  updated_remote : Remote → Answer (Unit {0}) → Event
  deleted_remote : ℕ → Answer (Unit {0}) → Event
  warned : String → Event

-- The answers of the libraries, of the cluster and of Grafana, each of which may depend on the calls
-- made so far. `patch_status` and `create_or_patch` are given the caller's object and its function,
-- and answer with the caller's object after the call.
pub record Env : Type 0 where
  pub get : List Event → Answer Datasource
  pub patch_status : List Event → Datasource → (Datasource → Datasource) → Answer Datasource
  pub create_or_patch : List Event → Datasource → (Datasource → Datasource) → Answer Datasource
  pub connect : List Event → Datasource → Answer (Unit {0})
  pub create : List Event → Remote → Answer (Option ℕ)
  pub update : List Event → Remote → Answer (Unit {0})
  pub delete : List Event → ℕ → Answer (Unit {0})
  pub already_reconciled : Datasource → Bool
  pub set_condition : List Condition → Condition → List Condition
  pub with_finalizer : List String → String → List String
  pub without_finalizer : List String → String → List String

-- `pointer.Int`: 0 for nil
abbrev pub or_zero : Option ℕ → ℕ
or_zero none = 0
or_zero (some n) = n

module _ (env : Env) where
  unfoldable pub apply : Change → Datasource → Datasource
  apply terminate d = record d { phase = terminating }
  apply process d = record d {
    phase = processing;
    conditions = [];
    observed_generation = d.generation;
  }
  apply add_finalizer d = record d { finalizers = env.with_finalizer d.finalizers finalizer }
  apply release d = record d { finalizers = env.without_finalizer d.finalizers finalizer }
  apply (record_created id) d = record d {
    phase = current;
    reason = "Successfully created Grafana Datasource";
    observed_generation = d.generation;
    datasource_id = some (or_zero id);
  }
  apply (record_updated generation) d = record d {
    phase = current;
    reason = "Successfully updated GrafanaDatasource";
    observed_generation = generation;
  }
  apply (record_failure reason) d = record d {
    phase = phase_failed;
    reason = reason;
    conditions =
        env.set_condition d.conditions (record { type = condition_failed; reason = reason });
  }

  pub patch_status : Change → Datasource → Exec Event Datasource
  unfolding apply call
  patch_status c d = call (λ t. env.patch_status t d (apply c)) (patched_status c)

  pub patch : Change → Datasource → Exec Event Datasource
  unfolding apply call
  patch c d = call (λ t. env.create_or_patch t d (apply c)) (patched c)

  pub delete_external : Datasource → Exec Event (Unit {0})
  unfolding ◌>>=◌
  delete_external d = elim d.datasource_id [
    | none ↦ pure tt
    | some id ↦ do ask (λ t. env.connect t d); call (λ t. env.delete t id) (deleted_remote id)
  ]

  -- The text of the new error is the format's, around the text of the old one.
  wrap : String → Error → Exec Event (Unit {0})
  unfolding fail
  wrap text e = fail (failed (concat text (message e)))

  create_datasource : Datasource → Remote → Exec Event (Unit {0})
  unfolding check call wrap patch_status pure
  create_datasource d remote =
      check (call (λ t. env.create t remote) (created_remote remote))
        (wrap "failed to create datasource, reason: ")
        λ id.
          check (patch_status (record_created id) d)
            (λ e. fail (failed "failed to update GrafanaDatasource phase to \"Current\""))
            λ d'. pure tt

  update_datasource : Datasource → Remote → Exec Event (Unit {0})
  unfolding check call wrap patch_status pure
  update_datasource d remote =
      check (call (λ t. env.update t remote) (updated_remote remote))
        (wrap "failed to update remote datasource, reason: ")
        λ _.
          check (patch_status (record_updated d.generation) d)
            (λ e. fail (failed "failed to update GrafanaDatasource phase to \"Current\""))
            λ d'. pure tt

  unfoldable pub create_or_update : Datasource → Exec Event (Unit {0})
  unfolding ◌>>=◌ create_datasource update_datasource
  create_or_update d = do
    ask (λ t. env.connect t d)
    elim d.datasource_id [
      | some id ↦
          check (update_datasource d (record { id = id; spec = d.spec }))
            (wrap "failed to update Datasource, reason: ") pure
      | none ↦
          check (create_datasource d (record { id = 0; spec = d.spec }))
            (wrap "failed to create Datasource, reason: ") pure
    ]

  handle_failure : Datasource → String → Exec Event (Unit {0})
  unfolding ◌>>=◌ patch_status
  handle_failure d reason = do
    emit (warned reason)
    check (patch_status (record_failure reason) d) (λ e. emit (warned "failed to update status"))
        λ _. pure tt

  tear_down : Datasource → Exec Event Reply
  unfolding ◌>>=◌ patch_status delete_external patch
  tear_down d = do d1 ← patch_status terminate d; delete_external d1; patch release d1; pure done

  reconcile_deleted : Datasource → Exec Event Reply
  unfolding branch pure tear_down
  reconcile_deleted d = branch (contains d.finalizers finalizer) (tear_down d) (pure done)

  reconcile_active : Datasource → Exec Event Reply
  unfolding ◌>>=◌ patch_status patch create_or_update handle_failure
  reconcile_active d =
      if not (contains d.finalizers finalizer)
      then (do patch add_finalizer d; pure done)
      else if env.already_reconciled d
      then pure done
      else do
        d1 ← patch_status process d
        check (create_or_update d1) (λ e. do handle_failure d1 (message e); fail e) λ _. pure done

  unfoldable pub reconcile : Exec Event Reply
  unfolding check ask pure branch reconcile_deleted reconcile_active
  reconcile =
      check (ask env.get)
        (λ e. pure (record { requeue_after = 0; error = ignore_not_found (some e) }))
        λ d. branch d.is_deleted (reconcile_deleted d) (reconcile_active d)
