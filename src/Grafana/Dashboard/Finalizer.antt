-- ===== src/Grafana/Dashboard/Finalizer.antt =====
-- A GrafanaDashboard is not let go before its dashboard in Grafana is gone.
use grafana_tools.Base.{Bool, true, false, none, some, List, [], ◌∷◌, ◌≡◌, ◌⊎◌, arith}
use grafana_tools.Kube.{is_not_found}
use grafana_tools.Kube.Exec.{Answer, yields, fails}
use grafana_tools.Grafana.Dashboard.{
  Dashboard, Event, patched_status, released, deleted_remote, terminate, Env, accepted, refused,
  is_status, recorded_uid, reconcile_deleted,
}

-- The object as the deletion finds it: after the status patch, if there was one.
abbrev pub object_at : Dashboard → List Event → Dashboard
object_at d (patched_status terminate (yields d1) ∷ t) = d1
object_at d _ = d

abbrev pub is_missing : Answer (Unit {0}) → Bool
is_missing (yields u) = false
is_missing (fails e) = is_not_found e

-- The last call gave up the finalizer, and before it the dashboard that the status names was deleted,
-- or Grafana did not have it (404), or the status names none, or the AppBinding is gone.
abbrev pub ReleasesSafely : Env → Dashboard → List Event → Type 0
ReleasesSafely env d (released r ∷ deleted_remote uid (accepted u) ∷ t) =
    recorded_uid (object_at d t).dashboard ≡ some uid
ReleasesSafely env d (released r ∷ deleted_remote uid (refused s e) ∷ t) =
    (recorded_uid (object_at d t).dashboard ≡ some uid) × (is_status s 404 ≡ true)
ReleasesSafely env d (released r ∷ t) =
    (recorded_uid (object_at d t).dashboard ≡ none)
    ⊎ (is_missing (env.connect t (object_at d t)) ≡ true)
ReleasesSafely env d (e ∷ released r ∷ t) = ⊥
ReleasesSafely env d _ = Unit

-- Whatever the environment answers to a deletion of `d`, the finalizer is given up only as the last
-- call, and only when the dashboard that the status names (after the status patch) was just deleted in
-- Grafana or is not there (404), or the status names none, or its AppBinding is gone.
pub deletion_safe :
    (env : Env) (d : Dashboard) → ReleasesSafely env d (reconcile_deleted env d []).1
unfolding reconcile_deleted is_not_found
deletion_safe env d = ground arith
