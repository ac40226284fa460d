-- ===== src/Datasource/Lifecycle.antt =====
-- The life of a datasource in Grafana: created once, recorded, updated, and deleted before its
-- finalizer goes.
use grafana_tools.Base.{
  ℕ, String, true, false, none, some, List, [], ◌∷◌, ◌≡◌, ◌⊎◌, arith, contains,
}
use grafana_tools.Kube.{Error, done, message}
use grafana_tools.Kube.Exec.{yields, fails, ok, err}
use grafana_tools.Datasource.{
  Datasource, Remote, terminate, process, release, record_created, record_updated, record_failure,
  Event, patched_status, patched, created_remote, updated_remote, deleted_remote, warned, Env,
  finalizer, apply, reconcile, create_or_update,
}

-- The last call took the finalizer away, and just before it the datasource that the status named was
-- deleted in Grafana, or the status named none.
abbrev pub ReleasesSafely : List Event → Type 0
ReleasesSafely
      (patched release r ∷ deleted_remote n (yields u) ∷ patched_status terminate (yields d) ∷ t) =
    d.datasource_id ≡ some n
ReleasesSafely (patched release r ∷ patched_status terminate (yields d) ∷ t) =
    d.datasource_id ≡ none
ReleasesSafely (patched release r ∷ t) = ⊥
ReleasesSafely (e ∷ patched release r ∷ t) = ⊥
ReleasesSafely _ = Unit

-- Whatever the environment answers, a reconcile takes the finalizer away only as its last call, and
-- only when the status names no datasource of Grafana or Grafana has just deleted the one it names.
pub release_safe : (env : Env) → ReleasesSafely (reconcile env []).1
unfolding reconcile
release_safe env = ground arith

-- The requests that would make a new datasource in Grafana.
abbrev pub creations : List Event → List Remote
creations [] = []
creations (created_remote r o ∷ t) = r ∷ creations t
creations (_ ∷ t) = creations t

abbrev pub updates : List Event → List Remote
updates [] = []
updates (updated_remote r o ∷ t) = r ∷ updates t
updates (_ ∷ t) = updates t

-- The last calls of a failed run.
abbrev pub FailureNoted : String → List Event → Type 0
FailureNoted m (patched_status (record_failure r) (yields d) ∷ warned w ∷ t) = (r ≡ m) × (w ≡ m)
FailureNoted m (warned w' ∷ patched_status (record_failure r) (fails e) ∷ warned w ∷ t) =
    (r ≡ m) × (w ≡ m)
FailureNoted m _ = ⊥

-- The last calls of a successful run.
abbrev pub Recorded : Datasource → List Event → Type 0
Recorded d (patched_status (record_created id) (yields d') ∷ created_remote r (yields id') ∷ t) =
    (d.datasource_id ≡ none) × (id ≡ id') × (r ≡ record { id = 0; spec = d.spec })
Recorded d (patched_status (record_updated g) (yields d') ∷ updated_remote r (yields u) ∷ t) =
    (d.datasource_id ≡ some r.id) × (g ≡ d.generation) × (r.spec ≡ d.spec)
Recorded d _ = ⊥

module _ (env : Env) (d d1 : Datasource) (got : env.get [] ≡ yields d) (live : d.is_deleted ≡ false)
    (held : contains d.finalizers finalizer ≡ true) (stale : env.already_reconciled d ≡ false)
    (processing : env.patch_status [] d (apply env process) ≡ yields d1) where
  -- For a live datasource that holds the finalizer and has a new generation: once its status names a
  -- datasource of Grafana no other is made, and the requests sent are at most one update of that one.
  pub creates_once :
      (n : ℕ)
      → d1.datasource_id ≡ some n
      → (creations (reconcile env []).1 ≡ [])
        × ((updates (reconcile env []).1 ≡ [])
            ⊎ (updates (reconcile env []).1 ≡ record { id = n; spec = d1.spec } ∷ []))
  unfolding reconcile
  creates_once n e = ground arith

  abbrev started : List Event
  started = patched_status process (yields d1) ∷ []

  -- When creating or updating in Grafana fails, a warning is recorded, the status is set to failed
  -- for that very error, and the error is returned.
  pub failure_reported :
      (e : Error)
      → (create_or_update env d1 started).0 ≡ err e
      → ((reconcile env []).0 ≡ err e) × (FailureNoted (message e) (reconcile env []).1)
  unfolding reconcile
  failure_reported e h = ground arith

  -- A reconcile that succeeds has recorded in the status, as its last call, the id that Grafana gave
  -- to the new datasource, or the update of the one that the status names.
  pub success-Recorded : (reconcile env []).0 ≡ ok done → Recorded d1 (reconcile env []).1
  unfolding reconcile
  success-Recorded h = ground arith
