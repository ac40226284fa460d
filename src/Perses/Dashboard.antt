-- ===== src/Perses/Dashboard.antt =====
-- pkg/controllers/openviz/persesdashboard_controller.go: the reconciler of a PersesDashboard.
pub mod Objects
pub mod Ends
pub use Objects.*
use grafana_tools.Base.{
  String, ℕ, Bool, true, false, not, Option, none, some, List, [], ◌∷◌, ◌==◌, contains,
  if◌then◌else◌, concat,
}
use grafana_tools.Kube.{
  ObjectKey, Error, failed, Reply, done, message, is_not_found, ignore_not_found,
}
use grafana_tools.Kube.Exec.{
  Answer, yields, fails, Outcome, ok, outcome, Exec, pure, fail, ask, call, emit, local, branch,
  check, ◌>>=◌, ◌>>◌,
}
use grafana_tools.Grafana.State.{
  AppBinding, PersesConfiguration, StateMap, configured, no_perses_configuration, perses_state,
}
use grafana_tools.Net.{Client, Response}
use grafana_tools.Perses.Requests.{Texts, Http, delete_answer, set_answer, delete_dashboard}
use grafana_tools.Perses.Requests
use grafana_tools.Perses.Variables.{PersesModel, update_datasource_variable}

abbrev pub phase_in_progress : Phase → Bool
phase_in_progress processing = true
phase_in_progress phase_failed = true
phase_in_progress _ = false

abbrev pub is_terminating : Phase → Bool
is_terminating terminating = true
is_terminating _ = false

-- The project and folder of the AppBinding's parameters.
abbrev pub placed : PersesModel → PersesConfiguration → PersesModel
placed m c = record m {
  project = c.project_name;
  project_id = c.project_id;
  folder_name = c.folder_name;
  folder_id = c.folder_id;
}

abbrev pub required_model : Option (Answer PersesModel) → Answer PersesModel
required_model none = fails (failed "dashboard model is empty")
required_model (some m) = m

abbrev pub bad_parameters : Error → Error
bad_parameters e =
    failed (concat "failed to unmarshal app binding parameters, reason: " (message e))

-- The recorded dashboard, if it has a name.
abbrev pub named : Option DashboardRef → Option DashboardRef
named none = none
named (some ref) = if ref.name == "" then none else some ref

abbrev pub without_error : Option Error → Reply
without_error e = record { requeue_after = 0; error = e }

module _ (env : Env) where
  unfoldable pub apply : Change → Dashboard → Dashboard
  apply terminate d = record d {
    phase = terminating;
    reason = "Resource has been going to be deleted";
  }
  apply process d = record d { phase = processing }
  apply add_finalizer d = record d { finalizers = env.with_finalizer d.finalizers finalizer }
  apply (record_failure reason) d = record d {
    phase = phase_failed;
    reason = reason;
    conditions =
        env.set_condition d.conditions (record { type = failed_condition; reason = reason });
  }
  apply (record_success name config state) d = record d {
    dashboard = some (record {
      name = name;
      project_name = config.project_name;
      folder_name = config.folder_name;
      state = some state;
    });
    phase = current;
    observed_generation = d.generation;
    conditions =
        env.set_condition d.conditions
          (record { type = ready_condition; reason = "Dashboard is successfully created" });
    reason = "Dashboard is successfully created";
  }

  unfoldable pub patch_status : Change → Dashboard → Exec Event Dashboard
  unfolding call
  patch_status c d = call (λ t. env.patch_status t d (apply c)) (patched_status c)

  unfoldable pub handle_error : Dashboard → Error → Exec Event Reply
  unfolding ◌>>=◌ patch_status
  handle_error d e = do
    emit (warned (message e))
    check (patch_status (record_failure (message e)) d)
        (λ e'. pure (record { requeue_after = env.requeue_after_duration; error = some e' }))
        λ _. pure (record { requeue_after = env.requeue_after_duration; error = none })

  -- `PersesState`, over the package variable.
  unfoldable pub state_of : AppBinding → Exec Event String
  unfolding ask perses_state
  state_of ab t = let (m, r) = perses_state env.hash ab (state_map t) in ask (λ _. r) (cached m ∷ t)

  abbrev pub answered : PersesModel → Answer Response → Exec Event (Unit {0})
  answered m r = local (outcome (set_answer env.texts m.name r))

  -- `SetDashboard` of the Perses client, with what follows it.
  unfoldable pub submit :
      Dashboard → Client → PersesModel → PersesConfiguration → String → Exec Event Reply
  unfolding ◌>>=◌ handle_error set_answer Requests.set_dashboard
  submit d c m config state t =
      let r = Requests.set_dashboard (env.http t) c m config.project_name config.folder_name in
      check (answered m r) (handle_error d)
        (λ _. do patch_status (record_success m.name config state) d; pure done) (submitted m r ∷ t)

  unfoldable pub set_dashboard : Dashboard → Exec Event Reply
  set_dashboard d = check (ask (λ t. env.get_perses t d)) (handle_error d) λ ab.
      check (state_of ab) (handle_error d) λ state.
        check (ask (λ _. configured no_perses_configuration ab.perses_parameters))
          (λ e. handle_error d (bad_parameters e))
          λ config. check (ask (λ t. env.connect t d)) (handle_error d) λ c.
            check (ask (λ _. required_model d.model)) (handle_error d) λ model.
              check (local (update_datasource_variable (placed model config) config.datasource))
                (handle_error d) λ m. submit d c m config state

  unfoldable pub delete_external : Dashboard → Exec Event (Unit {0})
  unfolding ◌>>=◌ delete_answer delete_dashboard
  delete_external d = elim (named d.dashboard) [
    | none ↦ pure tt
    | some ref ↦
        check (ask (λ t. env.connect t d)) (λ e. branch (is_not_found e) (pure tt) (fail e))
          λ c t.
            let r = delete_dashboard (env.http t) c ref.project_name ref.folder_name ref.name in
            local (outcome (delete_answer env.texts ref.name r)) (deleted_remote ref r ∷ t)
  ]

  unfoldable pub release : Dashboard → Exec Event Reply
  unfolding check call pure ignore_not_found
  release d =
      let d' = record d { finalizers = env.without_finalizer d.finalizers finalizer } in
      check (call (λ t. env.patch t d') released)
        (λ e. pure (without_error (ignore_not_found (some e)))) λ _. pure done

  unfoldable pub reconcile_deleted : Dashboard → Exec Event Reply
  unfolding ◌>>=◌ patch_status delete_external release
  reconcile_deleted d = do
    d1 ← branch (is_terminating d.phase) (pure d) (patch_status terminate d)
    delete_external d1
    release d1

  unfoldable pub prepare : Dashboard → Exec Event Dashboard
  unfolding ◌>>=◌ patch_status
  prepare d = do
    d1 ←
        branch (contains d.finalizers finalizer) (pure d)
          (call (λ t. env.create_or_patch t d (apply add_finalizer)) (patched add_finalizer))
    branch (phase_in_progress d1.phase) (pure d1) (patch_status process d1)

  unfoldable pub reconcile : Exec Event Reply
  unfolding ◌>>=◌ reconcile_deleted prepare set_dashboard ignore_not_found
  reconcile =
      check (ask env.get) (λ e. pure (without_error (ignore_not_found (some e))))
        λ d. branch d.is_deleted (reconcile_deleted d) (do d1 ← prepare d; set_dashboard d1)
