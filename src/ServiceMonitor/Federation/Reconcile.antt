-- ===== src/ServiceMonitor/Federation/Reconcile.antt =====
-- `Reconcile` of federation_controller.go.
use grafana_tools.Base.{String, not, Option, none, some, List, [], ◌∷◌, ◌++◌, ◌==◌, lookup}
use grafana_tools.Kube.{Error, Reply, done, ignore_not_found}
use grafana_tools.Kube.Exec.{Exec, pure, fail, ask, call, branch, check, ◌>>=◌, ◌>>◌}
use grafana_tools.ServiceMonitor.Auto.{has_value}
use grafana_tools.ServiceMonitor.Order.{sorted}
use grafana_tools.ServiceMonitor.Federation.{
  Endpoint, ServiceMonitor, Prometheus, Service, Secret, Event, Env, labelled,
}
use grafana_tools.ServiceMonitor.Federation.Copies.{put_services, copy_to}

module _ (env : Env) where
  -- The function of `updateServiceMonitorLabels`; the service monitor is the one it gives back.
  unfoldable pub update_labels : Prometheus → ServiceMonitor → Exec Event ServiceMonitor
  update_labels p m =
      call (λ t. env.label t m (λ x. record x { labels = env.overwrite x.labels p.monitor_labels }))
        (labelled p)

  -- The loop over the Prometheus objects. One of a project that stands in the namespace of the
  -- service monitor ends it without an error; this is none.
  unfoldable pub each :
      String
      → List Service
      → List Secret
      → ServiceMonitor
      → List Error
      → List Prometheus
      → Exec Event (Option (List Error))
  each own services secrets m failed [] = pure (some failed)
  each own services secrets m failed (p ∷ ps) =
      branch (env.is_default p.key)
        (check (update_labels p m) (λ e. each own services secrets m (failed ++ (e ∷ [])) ps)
          (λ m'. each own services secrets m' failed ps))
        (branch (p.key.namespace == own) (pure none)
          (do es ← copy_to env services secrets p m; each own services secrets m (failed ++ es) ps))

  unfoldable pub source_services :
      ServiceMonitor → List String → List Service → Exec Event (List Service)
  unfolding put_services
  source_services m [] known = pure known
  source_services m (ns ∷ nss) known = do
    found ← ask (λ t. env.select t m ns)
    source_services m nss (put_services found known)

  abbrev pub secret_at : ServiceMonitor → Option String → Exec Event (List Secret)
  secret_at m none = pure []
  secret_at m (some name) = branch (name == "") (pure []) (do
    s ← ask (λ t. env.get_secret t (record { namespace = m.key.namespace; name = name }))
    pure (s ∷ []))

  unfoldable pub source_secrets : ServiceMonitor → List Endpoint → Exec Event (List Secret)
  source_secrets m [] = pure []
  source_secrets m (e ∷ es) = do
    first ← secret_at m e.ca_secret
    others ← source_secrets m es
    pure (first ++ others)

  abbrev pub report : Option (List Error) → Exec Event Reply
  report none = pure done
  report (some []) = pure done
  report (some (e ∷ es)) = fail (env.aggregate e es)

  abbrev pub label_default : ServiceMonitor → Option Prometheus → Exec Event Reply
  label_default m none = pure done
  label_default m (some p) = update_labels p m >> pure done

  unfoldable pub federate : ServiceMonitor → List Prometheus → Exec Event Reply
  federate m ps = do
    ask (λ t. env.selector m)
    services ← source_services m m.namespaces []
    secrets ← source_secrets m m.endpoints
    result ← each m.key.namespace services secrets m [] ps
    report result

  abbrev pub over : ServiceMonitor → List Prometheus → Exec Event Reply
  over m [] = pure done
  over m (p ∷ ps) = do
    ready ← ask env.ready
    branch ready
        (branch (not env.federated)
          (label_default m (env.default_prometheus (sorted (λ q. q.key) (p ∷ ps))))
          (federate m (sorted (λ q. q.key) (p ∷ ps))))
        (pure done)

  unfoldable pub process : ServiceMonitor → Exec Event Reply
  unfolding sorted lookup
  process m =
      branch (has_value (lookup m.labels env.texts.prometheus_key) env.texts.federated_value)
        (check (ask env.list)
          (λ e. pure (record { requeue_after = 0; error = ignore_not_found (some e) })) (over m))
        (pure done)

  unfoldable pub reconcile : Exec Event Reply
  unfolding check
  reconcile =
      check (ask env.get)
        (λ e. pure (record { requeue_after = 0; error = ignore_not_found (some e) })) process
