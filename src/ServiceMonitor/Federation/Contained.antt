-- ===== src/ServiceMonitor/Federation/Contained.antt =====
-- Where the federation of a service monitor writes.
use grafana_tools.Base.{
  String, true, false, Option, none, some, List, [], ◌∷◌, ◌++◌, ◌≡◌, refl, subst, arith, ◌⊎◌, inl,
  inr, ◌==◌, All,
}
use grafana_tools.Kube.{ObjectKey, Error}
use grafana_tools.Kube.Exec.{Exec, pure, crash, ◌>>=◌}
use grafana_tools.Kube.Exec.Keeps.{
  Keeps, pure-Keeps, fail-Keeps, ask-Keeps, call-Keeps, branch-Keeps, check-Keeps, bind-Keeps,
  attempt-Keeps,
}
use grafana_tools.ServiceMonitor.Ports.{Subset}
use grafana_tools.ServiceMonitor.Federation.{
  Endpoint, ServiceMonitor, Prometheus, Service, Endpoints, Secret, Event, labelled, copied_monitor,
  copied_service, copied_endpoints, copied_secret, Env,
}
use grafana_tools.ServiceMonitor.Federation.Copies.{
  target_key, there, read_subsets, copy_monitor, copy_service, copy_endpoints, copy_secret,
  copy_its_endpoints, copy_services, copy_secrets, copy_rest, copy_to,
}
use grafana_tools.ServiceMonitor.Federation.Reconcile.{
  update_labels, each, source_services, secret_at, source_secrets, report, federate,
}

module _ (env : Env) (own : String) (all : List Prometheus) where
  -- The namespace of a Prometheus of the list that belongs to a project.
  abbrev pub IsHome : String → List Prometheus → Type 0
  IsHome ns [] = ⊥
  IsHome ns (p ∷ ps) = ((env.is_default p.key ≡ false) × (p.key.namespace ≡ ns)) ⊎ IsHome ns ps

  abbrev pub IsElsewhere : String → Type 0
  IsElsewhere ns = ((ns == own) ≡ false) × IsHome ns all

  -- Labels are written for the default Prometheus; copies go to the namespaces of projects, never to the
  -- one of the service monitor itself.
  unfoldable pub Contained : Event → Type 0
  Contained (labelled p r) = env.is_default p.key ≡ true
  Contained (copied_monitor k r) = IsElsewhere k.namespace
  Contained (copied_service k r) = IsElsewhere k.namespace
  Contained (copied_endpoints k r) = IsElsewhere k.namespace
  Contained (copied_secret k r) = IsElsewhere k.namespace

  abbrev Fine : {A : Type 0} → Exec Event A → Type 0
  Fine m = Keeps Contained m

  abbrev Aimed : Option ObjectKey → Type 0
  Aimed target = (k : ObjectKey) → target ≡ some k → IsElsewhere k.namespace

  aimed :
      {A : Type 0} (target : Option ObjectKey) (f : ObjectKey → Exec Event A)
      → Aimed target
      → ((k : ObjectKey) → IsElsewhere k.namespace → Fine (f k))
      → Fine (there target >>= f)
  unfolding ◌>>=◌ Keeps
  aimed none f h g t k = k
  aimed (some key) f h g t k = g key (h key refl) t k

  fine_subsets : (o : Option (List (Subset String))) → Fine (read_subsets o)
  unfolding Keeps crash pure
  fine_subsets none t k = k
  fine_subsets (some ss) t k = k

  fine_service :
      (s : Service) (target : Option ObjectKey) → Aimed target → Fine (copy_service env s target)
  unfolding copy_service Contained
  fine_service s target h = aimed target _ h λ k far. call-Keeps Contained _ _ λ r. far

  fine_endpoints :
      (s : Service) (ep : Endpoints) (target : Option ObjectKey)
      → Aimed target
      → Fine (copy_endpoints env s ep target)
  unfolding copy_endpoints Contained
  fine_endpoints s ep target h = aimed target _ h λ k far.
      bind-Keeps Contained _ _ (ask-Keeps Contained _) λ old.
        bind-Keeps Contained _ _ (fine_subsets _) λ subsets. call-Keeps Contained _ _ λ r. far

  fine_secret :
      (s : Secret) (target : Option ObjectKey) → Aimed target → Fine (copy_secret env s target)
  unfolding copy_secret Contained
  fine_secret s target h = aimed target _ h λ k far. call-Keeps Contained _ _ λ r. far

  fine_its_endpoints :
      (s : Service) (target : Option ObjectKey)
      → Aimed target
      → Fine (copy_its_endpoints env s target)
  unfolding copy_its_endpoints
  fine_its_endpoints s target h =
      check-Keeps Contained _ _ _ (ask-Keeps Contained _) (λ e. pure-Keeps Contained _)
        λ ep. attempt-Keeps Contained _ (fine_endpoints s ep target h)

  fine_services :
      (ss : List Service) (target : Option ObjectKey)
      → Aimed target
      → Fine (copy_services env ss target)
  unfolding copy_services
  fine_services [] target h = pure-Keeps Contained _
  fine_services (s ∷ ss) target h =
      bind-Keeps Contained _ _ (attempt-Keeps Contained _ (fine_service s target h)) λ e1.
        bind-Keeps Contained _ _ (fine_its_endpoints s target h)
          λ e2. bind-Keeps Contained _ _ (fine_services ss target h) λ es. pure-Keeps Contained _

  fine_secrets :
      (ss : List Secret) (target : Option ObjectKey)
      → Aimed target
      → Fine (copy_secrets env ss target)
  unfolding copy_secrets
  fine_secrets [] target h = pure-Keeps Contained _
  fine_secrets (s ∷ ss) target h =
      bind-Keeps Contained _ _ (attempt-Keeps Contained _ (fine_secret s target h))
        λ e1. bind-Keeps Contained _ _ (fine_secrets ss target h) λ es. pure-Keeps Contained _

  fine_rest :
      (ss : List Service) (ks : List Secret) (es : List Error) (target : Option ObjectKey)
      → Aimed target
      → Fine (copy_rest env ss ks es target)
  unfolding copy_rest
  fine_rest ss ks es target h =
      bind-Keeps Contained _ _ (fine_services ss target h)
        λ e1. bind-Keeps Contained _ _ (fine_secrets ks target h) λ e2. pure-Keeps Contained _

  fine_monitor :
      (p : Prometheus) (m : ServiceMonitor)
      → IsElsewhere p.key.namespace
      → Fine (copy_monitor env p m)
  unfolding copy_monitor Contained
  fine_monitor p m far =
      bind-Keeps Contained _ _ (ask-Keeps Contained _) λ ns. call-Keeps Contained _ _ λ r. far

  fine_copy :
      (ss : List Service) (ks : List Secret) (p : Prometheus) (m : ServiceMonitor)
      → IsElsewhere p.key.namespace
      → Fine (copy_to env ss ks p m)
  unfolding copy_to
  fine_copy ss ks p m far =
      check-Keeps Contained _ _ _ (fine_monitor p m far)
        (λ e. fine_rest ss ks (e ∷ []) none λ k bad. ground (arith, bad))
        (λ u. fine_rest ss ks [] (some (target_key p m.key.name)) λ k same.
          let e : target_key p m.key.name ≡ k = ground (arith, same) in
          subst (λ (x : ObjectKey). IsElsewhere x.namespace) e far)

  fine_labels :
      (p : Prometheus) (m : ServiceMonitor)
      → env.is_default p.key ≡ true
      → Fine (update_labels env p m)
  unfolding update_labels Contained
  fine_labels p m c = call-Keeps Contained _ _ λ r. c

  fine_each :
      (ss : List Service) (ks : List Secret) (m : ServiceMonitor) (es : List Error)
      (ps : List Prometheus)
      → ((ns : String) → IsHome ns ps → IsHome ns all)
      → Fine (each env own ss ks m es ps)
  unfolding each
  fine_each ss ks m es [] sub = pure-Keeps Contained _
  fine_each ss ks m es (p ∷ ps) sub =
      branch-Keeps Contained _ _ _
        (λ c.
          check-Keeps Contained _ _ _ (fine_labels p m c)
            (λ e. fine_each ss ks m (es ++ (e ∷ [])) ps (λ ns h. sub ns (inr h)))
            (λ m'. fine_each ss ks m' es ps (λ ns h. sub ns (inr h))))
        (λ c.
          branch-Keeps Contained _ _ _ (λ d. pure-Keeps Contained _)
            (λ d.
              bind-Keeps Contained _ _
                (fine_copy ss ks p m (d, sub p.key.namespace (inl (c, refl))))
                λ e1. fine_each ss ks m (es ++ e1) ps (λ ns h. sub ns (inr h))))

  fine_source_services :
      (m : ServiceMonitor) (nss : List String) (ss : List Service)
      → Fine (source_services env m nss ss)
  unfolding source_services
  fine_source_services m [] ss = pure-Keeps Contained _
  fine_source_services m (ns ∷ nss) ss =
      bind-Keeps Contained _ _ (ask-Keeps Contained _) λ found. fine_source_services m nss _

  fine_secret_at : (m : ServiceMonitor) (o : Option String) → Fine (secret_at env m o)
  fine_secret_at m none = pure-Keeps Contained _
  fine_secret_at m (some name) =
      branch-Keeps Contained _ _ _ (λ c. pure-Keeps Contained _)
        λ c. bind-Keeps Contained _ _ (ask-Keeps Contained _) λ s. pure-Keeps Contained _

  fine_source_secrets : (m : ServiceMonitor) (es : List Endpoint) → Fine (source_secrets env m es)
  unfolding source_secrets
  fine_source_secrets m [] = pure-Keeps Contained _
  fine_source_secrets m (e ∷ es) =
      bind-Keeps Contained _ _ (fine_secret_at m e.ca_secret) λ first.
        bind-Keeps Contained _ _ (fine_source_secrets m es) λ others. pure-Keeps Contained _

  fine_report : (o : Option (List Error)) → Fine (report env o)
  fine_report none = pure-Keeps Contained _
  fine_report (some []) = pure-Keeps Contained _
  fine_report (some (e ∷ es)) = fail-Keeps Contained _ _

-- Whatever the environment answers, and however the run ends, the federation of a service monitor writes
-- labels only for a Prometheus that is the default, and copies only into the namespaces of the other
-- Prometheus objects listed, none of which is the namespace of the service monitor itself.
pub federate-Contained :
    (env : Env) (m : ServiceMonitor) (ps : List Prometheus)
    → All (Contained env m.key.namespace ps) (federate env m ps []).1
unfolding federate Keeps
federate-Contained env m ps =
    let C = Contained env m.key.namespace ps in
    bind-Keeps C _ _ (ask-Keeps C _)
      (λ u. bind-Keeps C _ _ (fine_source_services env m.key.namespace ps m m.namespaces []) λ ss.
        bind-Keeps C _ _ (fine_source_secrets env m.key.namespace ps m m.endpoints) λ ks.
          bind-Keeps C _ _ (fine_each env m.key.namespace ps ss ks m [] ps (λ ns h. h))
            λ r. fine_report env m.key.namespace ps r)
      [] tt
