-- ===== src/ClientOrg/Reconcile.antt =====
-- namespace_controller.go and helpers.go: the reconciler of the namespaces of client organizations.
pub mod Objects
pub mod Teardown
pub mod Guards
pub use Objects.*
use grafana_tools.Base.{
  assign, String, ℕ, Bool, true, false, not, Option, none, some, List, [], ◌∷◌, ◌++◌, ◌&&◌, ◌||◌,
  ◌==◌, eqb, index, map, if◌then◌else◌,
}
use grafana_tools.Kube.{Error, failed, Reply, done, is_not_found, ignore_not_found}
use grafana_tools.Kube.Exec.{
  Answer, yields, fails, Exec, pure, fail, ask, look, call, branch, check, ◌>>=◌, ◌>>◌,
}
use grafana_tools.ClientOrg.{Keys, Namespace, cleaned_up_key, monitoring_namespace}
use grafana_tools.ClientOrg.Copies.{
  Board, PersesBoard, Source, Write, copy_dashboards, grafana_kind, perses_kind,
}
use grafana_tools.Hub.{Backend, grafana, perses}
use grafana_tools.ClientOrg.Backends.{register_backends}
use grafana_tools.ClientOrg.Backends
use grafana_tools.ClientOrg.Config.{World, prometheus_config}
use grafana_tools.Prometheus.{Config}

-- The events of these elements, the last the newest.
unfoldable pub onto : {A E : Type 0} → (A → E) → List A → List E → List E
onto event [] t = t
onto event (a ∷ r) t = onto event r (event a ∷ t)

abbrev pub later : ℕ → Reply
later seconds = record { requeue_after = seconds; error = none }

abbrev pub ignoring_missing : Error → Reply
ignoring_missing e = record { requeue_after = 0; error = ignore_not_found (some e) }

module _ {R G P : Type 0} (env : Env R G P) where
  abbrev Act : Type 0 → Type 0
  Act A = Exec (Event R G P) A

  unfoldable pub apply : Change → Namespace → Namespace
  apply release ns = record ns {
    finalizers = env.without_finalizer ns.finalizers env.keys.prometheus_key;
  }
  apply add_finalizer ns = record ns {
    finalizers = env.with_finalizer ns.finalizers env.keys.prometheus_key;
  }
  apply mark_cleaned_up ns = record ns { annotations = assign cleaned_up_key "true" ns.annotations }

  abbrev pub label_of : Namespace → String
  label_of ns = index ns.labels env.keys.client_org

  abbrev pub org_id_of : Namespace → String
  org_id_of ns = index ns.annotations env.keys.ace_org_id

  -- `isActiveClientOrg`
  unfoldable pub is_active_client_org : Namespace → Bool
  unfolding index
  is_active_client_org ns =
      not ns.is_deleted && not (label_of ns == "") && not (label_of ns == "terminating")

  -- `ensureFinalizer` and `markCleanedUp` are patches of their own.
  unfoldable pub patch : Change → Namespace → Act (Unit {0})
  unfolding call
  patch c ns = call (λ t. env.patch t ns (apply c)) (patched c)

  -- The hub's errors are logged only.
  unfoldable pub unregister : Backend → Act (Unit {0})
  unfolding check call pure
  unregister b = check (call (λ t. env.unregister t b) (unregistered b)) (λ e. pure tt) λ u. pure tt

  unfoldable pub delete_all : Backend → String → Act (Unit {0})
  unfolding check call pure branch fail
  delete_all b mon =
      check (call (λ t. env.delete_all t b mon) (deleted_all b mon))
        (λ e. branch (is_not_found e) (pure tt) (fail e)) pure

  unfoldable pub handle_deletion : Namespace → Act Reply
  unfolding ◌>>=◌ unregister delete_all patch
  handle_deletion ns = do
    branch env.has_client (do unregister grafana; unregister perses) (pure tt)
    delete_all grafana (monitoring_namespace ns.name)
    delete_all perses (monitoring_namespace ns.name)
    patch release ns
    pure done

  -- Teardown by the label, once.
  unfoldable pub tear_down : Namespace → Act Reply
  unfolding ◌>>=◌ handle_deletion patch index
  tear_down ns =
      branch (index ns.annotations cleaned_up_key == "true") (pure done)
        (do handle_deletion ns; patch mark_cleaned_up ns; pure done)

  -- `ensureMonitoringNamespace`, with the delay it asks for.
  unfoldable pub ensure_monitoring : Namespace → Act (Namespace × ℕ)
  unfolding ◌>>=◌
  ensure_monitoring ns =
      let mon = monitoring_namespace ns.name in
      check (ask (λ t. env.get_monitoring t mon))
        (λ e.
          branch (is_not_found e)
            (do fresh ← call (λ t. env.create t mon) (created mon); pure (fresh, 0)) (fail e))
        λ found. pure (found, if found.is_deleted then 10 else 0)

  unfoldable pub ensure_role_binding : Namespace → String → Act (Unit {0})
  unfolding call
  ensure_role_binding mon client_org_id =
      call (λ t. env.bind t mon.name client_org_id) (bound mon.name client_org_id)

  -- The calls of `register_backends` are put before those made so far.
  unfoldable pub register : Config → Namespace → String → String → Act (Unit {0})
  unfolding register_backends
  register cfg mon client_org_id state t =
      let (o, t') = register_backends (env.backends cfg t) mon client_org_id state [] in
      (o, map backend t' ++ t)

  unfoldable pub copy_grafana : Namespace → Act (List Error)
  unfolding copy_dashboards onto
  copy_grafana ns t =
      let (ws, o) =
        copy_dashboards (grafana_kind env.client_title) env.hash_grafana (env.put_grafana t) ns
          (env.grafana_dashboards t) in
      (o, onto copied_grafana ws t)

  unfoldable pub copy_perses : Namespace → Act (List Error)
  unfolding copy_dashboards onto
  copy_perses ns t =
      let (ws, o) =
        copy_dashboards (perses_kind env.client_title) env.hash_perses (env.put_perses t) ns
          (env.perses_dashboards t) in
      (o, onto copied_perses ws t)

  abbrev pub report : List Error → Act Reply
  report [] = pure done
  report (e ∷ es) = fail (env.aggregate e es)

  -- `copyDashboards`, and the end of the reconcile.
  unfoldable pub copy_all : Namespace → Act Reply
  unfolding ◌>>=◌ copy_grafana copy_perses
  copy_all ns = do
    grafana_errors ← copy_grafana ns
    perses_errors ← copy_perses ns
    report (grafana_errors ++ perses_errors)

  unfoldable pub provision : Namespace → Namespace → Act Reply
  unfolding ◌>>=◌ ensure_role_binding register copy_all prometheus_config
  provision ns mon = do
    ensure_role_binding mon (org_id_of ns)
    cfg ← ask (λ t. prometheus_config (env.world t))
    branch env.has_client (do state ← ask env.cluster_state; register cfg mon (org_id_of ns) state)
        (pure tt)
    copy_all ns

  unfoldable pub set_up : Namespace → Act Reply
  unfolding ◌>>=◌ ensure_monitoring provision patch
  set_up ns = do
    patch add_finalizer ns
    found ← ensure_monitoring ns
    branch (eqb found.1 0) (provision ns found.0) (pure (later found.1))

  unfoldable pub serve : Namespace → Act Reply
  unfolding ◌>>=◌ set_up is_active_client_org
  serve ns =
      check (ask env.fresh) (λ e. pure (ignoring_missing e))
        λ fresh. branch (is_active_client_org fresh) (set_up ns) (pure done)

  unfoldable pub route : Namespace → Act Reply
  unfolding branch handle_deletion tear_down serve index
  route ns =
      branch ns.is_deleted (handle_deletion ns)
        (branch (label_of ns == "terminating") (tear_down ns) (serve ns))

  unfoldable pub reconcile_ready : Namespace → Act Reply
  unfolding ◌>>=◌ route
  reconcile_ready ns = do
    is_ready ← ask env.ready
    rancher ← look env.rancher_managed
    federated ← look env.federated
    branch (not is_ready) (pure (later 30)) (
        branch (rancher && federated)
          (fail (
            failed
              "client organization mode is not supported when federated Prometheus is used in a Rancher managed cluster"))
          (route ns))

  unfoldable pub reconcile : Act Reply
  unfolding ◌>>=◌ reconcile_ready index
  reconcile =
      check (ask env.get) (λ e. pure (ignoring_missing e))
        λ ns. branch (label_of ns == "" || org_id_of ns == "") (pure done) (reconcile_ready ns)
