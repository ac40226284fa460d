-- ===== src/Grafana/Dashboard.antt =====
-- pkg/controllers/openviz/grafanadashboard_controller.go: the reconciler of a GrafanaDashboard.
pub mod Objects
pub mod Finalizer
pub mod Outcomes
pub mod Update
pub use Objects.*
use grafana_tools.Base.{
  is_some, String, ℕ, Bool, true, false, not, Option, none, some, List, [], ◌∷◌, ◌&&◌, ◌||◌, ◌==◌,
  contains, eqb, if◌then◌else◌, concat,
}
use grafana_tools.Kube.{
  ObjectKey, key_eq, Error, failed, Reply, done, message, is_not_found, ignore_not_found,
}
use grafana_tools.Kube.Exec.{
  Answer, yields, fails, Outcome, ok, outcome, Exec, pure, fail, crash, ask, call, emit, local,
  branch, check, ◌>>=◌, ◌>>◌,
}
use grafana_tools.Json.{Raw, decode, encode}
use grafana_tools.Grafana.Panels.{add_dashboard_id, replace_datasource}
use grafana_tools.Grafana.State.{
  AppBinding, GrafanaConfiguration, StateMap, configured, no_grafana_configuration, or_zero,
  grafana_state,
}

abbrev pub is_status : Option ℕ → ℕ → Bool
is_status none code = false
is_status (some s) code = eqb s code

abbrev pub phase_in_progress : Phase → Bool
phase_in_progress processing = true
phase_in_progress phase_failed = true
phase_in_progress _ = false

abbrev pub is_terminating : Phase → Bool
is_terminating terminating = true
is_terminating _ = false

-- The recorded dashboard is still in the place that the binding now describes.
abbrev pub in_place : Option String → String → Bool
in_place none state = true
in_place (some s) state = s == state

abbrev pub present : Outcome Raw → Outcome (Option Raw)
present (ok m) = ok (some m)
present (Outcome.err e) = Outcome.err e
present (Outcome.panic p) = Outcome.panic p

abbrev pub identified : Raw → DashboardRef → Option ℕ → Option String → Outcome (Option Raw)
identified model ref (some id) (some uid) = present (add_dashboard_id model id uid)
identified model ref _ _ = Outcome.panic "invalid memory address or nil pointer dereference"

-- The model gets the id and uid of the recorded dashboard, so that Grafana updates that one.
unfoldable pub adopted : Option Raw → Option DashboardRef → String → Outcome (Option Raw)
adopted (some model) (some ref) state =
    if in_place ref.state state then identified model ref ref.id ref.uid else ok (some model)
adopted model ref state = ok model

abbrev pub with_datasource : Option Raw → String → Outcome (Option Raw)
with_datasource none ds = Outcome.panic "invalid memory address or nil pointer dereference"
with_datasource (some model) ds = present (outcome (replace_datasource model ds))

abbrev pub no_parameters : AppBinding → Error
no_parameters ab = failed (
    concat
      "failed to templatize dashboard, reason: datasource parameter is not provided in app binding "
      (concat ab.key.namespace (concat "/" ab.key.name)))

abbrev pub from_parameters :
    AppBinding → Option (Answer GrafanaConfiguration) → Option Raw → String → Outcome (Option Raw)
from_parameters ab none model ds = Outcome.err (no_parameters ab)
from_parameters ab (some _) model ds = with_datasource model ds

unfoldable pub templated : Option Bool → AppBinding → Option Raw → String → Outcome (Option Raw)
templated (some true) ab model ds = from_parameters ab ab.grafana_parameters model ds
templated _ ab model ds = ok model

abbrev pub bad_parameters : Error → Error
bad_parameters e =
    failed (concat "failed to unmarshal app binding parameters, reason: " (message e))

abbrev pub recorded_uid : Option DashboardRef → Option String
recorded_uid none = none
recorded_uid (some ref) = ref.uid

abbrev pub deletion : Response (Unit {0}) → Exec Event (Unit {0})
deletion (accepted _) = pure tt
deletion (refused status e) = branch (is_status status 404) (pure tt) (fail e)

abbrev pub without_error : Option Error → Reply
without_error e = record { requeue_after = 0; error = e }

module _ (env : Env) where
  unfoldable pub apply : Change → Dashboard → Dashboard
  apply terminate d = record d {
    phase = terminating;
    reason = "Resource has been going to be deleted";
  }
  apply process d = record d { phase = processing }
  apply add_finalizer d = record d { finalizers = env.with_finalizer d.finalizers finalizer }
  apply (record_failure reason update_generation) d = record d {
    phase = phase_failed;
    reason = reason;
    observed_generation = if update_generation then d.generation else d.observed_generation;
    conditions =
        env.set_condition d.conditions (record { type = failed_condition; reason = reason });
  }
  apply (record_success resp org state) d = record d {
    dashboard = some (record {
      id = resp.id;
      uid = resp.uid;
      slug = resp.slug;
      url = resp.url;
      org_id = org;
      version = resp.version;
      state = some state;
    });
    phase = current;
    observed_generation = d.generation;
    conditions =
        env.set_condition d.conditions
          (record { type = ready_condition; reason = "Dashboard is successfully created" });
    reason = "Dashboard is successfully created";
  }

  unfoldable pub patch_status : Change → Dashboard → Exec Event Dashboard
  unfolding call
  patch_status c d = call (λ t. env.patch_status t d (apply c)) (patched_status c)

  -- A failure is reported in the status, and tried again after the configured delay.
  unfoldable pub handle_error : Dashboard → Bool → Error → Exec Event Reply
  unfolding ◌>>=◌ patch_status
  handle_error d update_generation e = do
    emit (warned (message e))
    check (patch_status (record_failure (message e) update_generation) d)
        (λ e'. pure (record { requeue_after = env.requeue_after_duration; error = some e' }))
        λ _. pure (record { requeue_after = env.requeue_after_duration; error = none })

  -- `GrafanaState`, over the package variable.
  unfoldable pub state_of : AppBinding → Exec Event String
  unfolding ask grafana_state
  state_of ab t =
      let (m, r) = grafana_state env.hash ab (state_map t) in ask (λ _. r) (cached m ∷ t)

  unfoldable pub submit : Upload → Exec Event (Response Accepted)
  submit upload t = let r = env.set_dashboard t upload in (ok r, submitted upload r ∷ t)

  unfoldable pub record_upload : Dashboard → String → Response Accepted → Exec Event Reply
  unfolding ◌>>=◌ handle_error
  record_upload d state (refused status e) = handle_error d (is_status status 400) e
  record_upload d state (accepted resp) = check (ask env.current_org) (handle_error d false) λ org.
      branch (is_some resp.id && (is_some org && is_some resp.version))
        (do patch_status (record_success resp org state) d; pure done)
        (crash "nil dereference of an id or a version")

  unfoldable pub upload : Dashboard → String → ℕ → Exec Event Reply
  unfolding ◌>>=◌ submit record_upload
  upload d state folder_id = do
    r ← submit (record { model = d.model; folder_id = folder_id; overwrite = true })
    record_upload d state r

  unfoldable pub set_dashboard : Dashboard → Exec Event Reply
  set_dashboard d = check (ask (λ t. env.get_grafana t d)) (handle_error d false) λ ab.
      check (state_of ab) (handle_error d false) λ state.
        check (local (adopted d.model d.dashboard state)) (handle_error d false) λ model1.
          let d1 = record d { model = model1 } in
          check (ask (λ _. configured no_grafana_configuration ab.grafana_parameters))
            (λ e. handle_error d1 false (bad_parameters e))
            λ config.
              check (local (templated d1.templatize ab d1.model config.datasource))
                (handle_error d1 false)
                λ model2.
                  let d2 = record d1 { model = model2 } in
                  check (ask (λ t. env.connect t d2)) (handle_error d2 false)
                    λ _. upload d2 state (or_zero config.folder_id)

  unfoldable pub delete_external : Dashboard → Exec Event (Unit {0})
  unfolding ◌>>=◌
  delete_external d = elim (recorded_uid d.dashboard) [
    | none ↦ pure tt
    | some uid ↦
        check (ask (λ t. env.connect t d)) (λ e. branch (is_not_found e) (pure tt) (fail e))
          λ _ t. let r = env.delete_dashboard t uid in deletion r (deleted_remote uid r ∷ t)
  ]

  unfoldable pub release : Dashboard → Exec Event Reply
  unfolding check call pure ignore_not_found
  release d =
      let d' = record d { finalizers = env.without_finalizer d.finalizers finalizer } in
      check (call (λ t. env.patch t d') released)
        (λ e. pure (without_error (ignore_not_found (some e)))) λ _. pure done

  unfoldable pub reconcile_deleted : Dashboard → Exec Event Reply
  unfolding ◌>>=◌ patch_status delete_external release
  reconcile_deleted d = do
    d1 ← branch (is_terminating d.phase) (pure d) (patch_status terminate d)
    delete_external d1
    release d1

  unfoldable pub prepare : Dashboard → Exec Event Dashboard
  unfolding ◌>>=◌ patch_status
  prepare d = do
    d1 ←
        branch (contains d.finalizers finalizer) (pure d)
          (call (λ t. env.create_or_patch t d (apply add_finalizer)) (patched add_finalizer))
    branch (phase_in_progress d1.phase) (pure d1) (patch_status process d1)

  unfoldable pub reconcile : Exec Event Reply
  unfolding ◌>>=◌ reconcile_deleted prepare set_dashboard ignore_not_found
  reconcile =
      check (ask env.get) (λ e. pure (without_error (ignore_not_found (some e))))
        λ d. branch d.is_deleted (reconcile_deleted d) (do d1 ← prepare d; set_dashboard d1)
