-- ===== src/Prometheus/Reconcile.antt =====
-- The reconciler of a Prometheus.
pub mod Deletion
use grafana_tools.Base.{
  String, ℕ, Bool, true, false, not, Option, none, some, List, [], ◌∷◌, ◌&&◌, ◌==◌, Dict, lookup,
  assign, if◌then◌else◌,
}
use grafana_tools.Kube.{ObjectKey, Error, Reply, done, ignore_not_found}
use grafana_tools.Kube.Exec.{
  Answer, yields, fails, Exec, pure, fail, ask, call, branch, check, ◌>>=◌, ◌>>◌,
}
use grafana_tools.Detector.Prometheus.{Detector, openshift_managed, is_default}
use grafana_tools.Hub.{Backend, grafana, perses}
use grafana_tools.Prometheus.{
  Prometheus, ClusterMetadata, Context, Change, add_finalizer, remove_finalizer, Event, labelled,
  patched, unregistered, Env,
}
use grafana_tools.Prometheus.Project.{context_of, cleanup_preset}
use grafana_tools.Prometheus.Setup.{setup}

abbrev pub cluster_label : String
cluster_label = "cluster"

abbrev pub cluster_uid_label : String
cluster_uid_label = "cluster_uid"

abbrev pub holds : Option String → String → Bool
holds none v = false
holds (some w) v = w == v

unfoldable pub has_labels : ClusterMetadata → Dict String → Bool
unfolding lookup
has_labels cm m =
    holds (lookup m cluster_label) cm.name && holds (lookup m cluster_uid_label) cm.uid

unfoldable pub with_labels : ClusterMetadata → Prometheus → Prometheus
with_labels cm p = record p {
  external_labels =
      assign cluster_uid_label cm.uid (assign cluster_label cm.name p.external_labels);
}

module _ (env : Env) where
  unfoldable pub apply : Change → Prometheus → Prometheus
  apply add_finalizer p = record p {
    finalizers = env.with_finalizer p.finalizers env.texts.finalizer;
  }
  apply remove_finalizer p = record p {
    finalizers = env.without_finalizer p.finalizers env.texts.finalizer;
  }

  -- `ensureExternalLabels`: without the cluster's metadata it does nothing. The Prometheus is the one
  -- that the cluster gives back.
  unfoldable pub ensure_external_labels : Prometheus → Exec Event Prometheus
  unfolding ◌>>=◌ has_labels with_labels
  ensure_external_labels p =
      check (ask env.cluster_metadata) (λ e. pure p)
        λ cm.
          branch (has_labels cm p.external_labels) (pure p)
            (call (λ t. env.label t (with_labels cm p)) labelled)

  unfoldable pub unregister : Backend → Context → Exec Event (Unit {0})
  unfolding call
  unregister b ctx = call (λ t. env.unregister t b ctx) (unregistered b ctx)

  unfoldable pub reconcile_deleted : Detector → Prometheus → Bool → Exec Event Reply
  reconcile_deleted d p default = do
    cleanup_preset env d p default
    ctx ← context_of env p default
    branch env.has_client (do unregister grafana ctx; unregister perses ctx) (pure tt)
    call (λ t. env.patch t p (apply remove_finalizer)) (patched remove_finalizer)
    pure done

  unfoldable pub reconcile_live : Detector → Prometheus → Bool → Exec Event Reply
  unfolding ◌>>=◌ ensure_external_labels setup
  reconcile_live d p default = do
    p1 ← ensure_external_labels p
    p2 ← call (λ t. env.patch t p1 (apply add_finalizer)) (patched add_finalizer)
    setup env d p2 default
    pure done

  unfoldable pub reconcile_with : Prometheus → Detector → Exec Event Reply
  unfolding branch pure reconcile_deleted reconcile_live is_default openshift_managed
  reconcile_with p d =
      let default = is_default env.names d p.key in
      branch (openshift_managed d && not default) (pure done)
        (branch p.is_deleted (reconcile_deleted d p default) (reconcile_live d p default))

  abbrev pub when_ready : Prometheus → Option Detector → Exec Event Reply
  when_ready p none = pure done
  when_ready p (some d) = reconcile_with p d

  unfoldable pub reconcile : Exec Event Reply
  unfolding ◌>>=◌ reconcile_with ignore_not_found
  reconcile =
      check (ask env.get)
        (λ e. pure (record { requeue_after = 0; error = ignore_not_found (some e) }))
        λ p. do ready ← ask env.ready; when_ready p ready
