-- ===== src/Perses/Dashboard/Ends.antt =====
-- How a reconcile of a PersesDashboard can end.
use grafana_tools.Base.{
  ℕ, ◌≤◌, ◌<◌, String, Bool, true, false, Option, none, some, List, [], ◌∷◌, ◌≡◌, ◌⊎◌, arith,
}
use grafana_tools.Kube.{Error, Reply, done, is_not_found}
use grafana_tools.Kube.Exec.{Answer, yields, fails, Outcome, ok, err, panic, Exec}
use grafana_tools.Net.{Client, Response}
use grafana_tools.Perses.Variables.{PersesModel, Panel}
use grafana_tools.Perses.Dashboard.{
  Dashboard, Event, patched_status, released, deleted_remote, terminate, Env, named,
  reconcile_deleted, submitted, warned, record_failure, record_success, cached,
}

abbrev pub object_at : Dashboard → List Event → Dashboard
object_at d (patched_status terminate (yields d1) ∷ t) = d1
object_at d _ = d

abbrev pub is_missing : Answer Client → Bool
is_missing (yields c) = false
is_missing (fails e) = is_not_found e

-- An answer of Perses that is taken: a status of 200 to 299, or another one that is named.
abbrev pub IsTaken : ℕ → Answer Response → Type 0
IsTaken other (yields r) = ((200 ≤ r.status) × (r.status < 300)) ⊎ (r.status ≡ other)
IsTaken other (fails e) = ⊥

-- The last call gave up the finalizer, and before it Perses accepted the deletion of the dashboard
-- that the status names or said that it has none, or the status names none, or the AppBinding is gone.
abbrev pub ReleasesSafely : Env → Dashboard → List Event → Type 0
ReleasesSafely env d (released r ∷ deleted_remote ref a ∷ t) =
    (named (object_at d t).dashboard ≡ some ref) × IsTaken 404 a
ReleasesSafely env d (released r ∷ t) =
    (named (object_at d t).dashboard ≡ none) ⊎ (is_missing (env.connect t (object_at d t)) ≡ true)
ReleasesSafely env d (e ∷ released r ∷ t) = ⊥
ReleasesSafely env d _ = Unit

-- Whatever the environment answers to a deletion of `d`, the finalizer is given up only as the last
-- call, and only when Perses has just answered the deletion of the dashboard that the status names with
-- a status of 200 to 299 or with 404, or the status names none, or its AppBinding is gone.
pub perses_deletion_safe :
    (env : Env) (d : Dashboard) → ReleasesSafely env d (reconcile_deleted env d []).1
unfolding reconcile_deleted is_not_found
perses_deletion_safe env d = ground arith

-- A panel of the map is nil.
abbrev pub HasNil : List (String × Option Panel) → Type 0
HasNil [] = ⊥
HasNil ((k, none) ∷ ps) = Unit
HasNil ((k, some p) ∷ ps) = HasNil ps

abbrev pub error_of : Answer Dashboard → Option Error
error_of (yields d) = none
error_of (fails e) = some e

-- The end of a run: the status was set from Perses's acceptance, or it was set to failed with the text
-- of the warning, and the run is repeated after the delay. Only a nil panel panics, and then nothing has
-- been called since Perses's state was computed.
abbrev pub Settles : Env → Dashboard → Outcome Reply × List Event → Type 0
Settles env d (ok r, patched_status (record_success n c st) (yields d') ∷ submitted m a ∷ t) =
    (r ≡ done) × (n ≡ m.name) × IsTaken 409 a
Settles env d (err e, patched_status (record_success n c st) (fails e') ∷ submitted m a ∷ t) =
    (e ≡ e') × (n ≡ m.name) × IsTaken 409 a
Settles env d (ok r, patched_status (record_failure m) a ∷ warned w ∷ t) =
    (r.requeue_after ≡ env.requeue_after_duration) × (r.error ≡ error_of a) × (w ≡ m)
Settles env d (panic why, cached m ∷ t) =
    (model : PersesModel) × (d.model ≡ some (yields model)) × HasNil model.panels
Settles env d _ = ⊥
