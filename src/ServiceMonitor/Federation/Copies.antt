-- ===== src/ServiceMonitor/Federation/Copies.antt =====
-- What federation_controller.go copies for the Prometheus of a project.
use grafana_tools.Base.{
  String, Bool, true, false, Option, none, some, List, [], ◌∷◌, ◌++◌, map, ◌&&◌, ◌==◌, index, erase,
  concat, if◌then◌else◌,
}
use grafana_tools.Kube.{ObjectKey, key_eq, Error}
use grafana_tools.Kube.Exec.{Exec, pure, crash, ask, call, attempt, check, ◌>>=◌}
use grafana_tools.ServiceMonitor.Ports.{Subset, copy_ports, copy_subsets}
use grafana_tools.ServiceMonitor.Federation.{
  Relabel, Endpoint, ServiceMonitor, Prometheus, Namespace, Service, Endpoints, Secret, Event, Env,
  copied_monitor, copied_service, copied_endpoints, copied_secret,
}

-- `srcServices[key] = svc`; the map is gone through in the order of this list.
unfoldable pub put_service : Service → List Service → List Service
put_service s [] = s ∷ []
put_service s (x ∷ xs) = if key_eq x.key s.key then s ∷ xs else x ∷ put_service s xs

unfoldable pub put_services : List Service → List Service → List Service
unfolding put_service
put_services [] known = known
put_services (s ∷ ss) known = put_services ss (put_service s known)

-- The namespaces whose metrics are kept: not those that stand for a project.
unfoldable pub kept_namespaces : String → List Namespace → List String
unfolding index
kept_namespaces key [] = []
kept_namespaces key (n ∷ ns) =
    if n.name == concat "cattle-project-" (index n.labels key)
    then kept_namespaces key ns
    else n.name ∷ kept_namespaces key ns

abbrev pub alternatives : List String → String
alternatives [] = ""
alternatives (x ∷ []) = x
alternatives (x ∷ xs) = concat x (concat "|" (alternatives xs))

unfoldable pub keep_rule : List String → Relabel
keep_rule namespaces = record {
  action = "keep";
  source_labels = "namespace" ∷ [];
  regex = concat "(" (concat (alternatives namespaces) ")");
  rest = "";
}

abbrev pub same_texts : List String → List String → Bool
same_texts [] [] = true
same_texts (x ∷ xs) (y ∷ ys) = x == y && same_texts xs ys
same_texts _ _ = false

-- `reflect.DeepEqual`
abbrev pub same_rule : Relabel → Relabel → Bool
same_rule a b =
    a.action == b.action
    && same_texts a.source_labels b.source_labels
    && a.regex == b.regex
    && a.rest == b.rest

abbrev pub led_by : Relabel → List Relabel → List Relabel
led_by rule [] = rule ∷ []
led_by rule (r ∷ rs) = if same_rule rule r then r ∷ rs else rule ∷ r ∷ rs

-- The loop over the endpoints of the copy.
unfoldable pub keep_endpoint : Relabel → Endpoint → Endpoint
keep_endpoint rule e = record e {
  honor_labels = true;
  metric_relabels = led_by rule e.metric_relabels;
}

abbrev pub target_key : Prometheus → String → ObjectKey
target_key p name = record { namespace = p.key.namespace; name = name }

abbrev pub beside : ObjectKey → String → ObjectKey
beside target name = record { namespace = target.namespace; name = name }

abbrev pub there : Option ObjectKey → Exec Event ObjectKey
there none = crash "nil dereference of the service monitor"
there (some k) = pure k

abbrev pub read_subsets : Option (List (Subset String)) → Exec Event (List (Subset String))
read_subsets none = crash "service has no port with name"
read_subsets (some ss) = pure ss

module _ (env : Env) where
  -- The function given to `CreateOrPatch` for the copy of a service monitor.
  unfoldable pub copied :
      Prometheus → ServiceMonitor → List Namespace → ServiceMonitor → ServiceMonitor
  unfolding keep_rule kept_namespaces keep_endpoint
  copied p src ns m =
      let rule = keep_rule (env.sort ("" ∷ kept_namespaces env.texts.project_key ns)) in
      record m {
        labels = erase env.texts.prometheus_key (env.overwrite m.labels p.monitor_labels);
        namespaces = src.namespaces;
        endpoints = map (keep_endpoint rule) src.endpoints;
        rest = src.rest;
      }

  unfoldable pub copy_monitor : Prometheus → ServiceMonitor → Exec Event (Unit {0})
  copy_monitor p src = do
    ns ← ask (λ t. env.select_namespaces t p)
    call (λ t. env.write_monitor t (target_key p src.key.name) (copied p src ns))
        (copied_monitor (target_key p src.key.name))

  unfoldable pub copied_ports : Service → Service → Service
  unfolding copy_ports
  copied_ports src s = record s {
    labels = env.overwrite s.labels src.labels;
    annotations = env.overwrite s.annotations src.annotations;
    is_cluster_ip = true;
    spec = record s.spec { ports = copy_ports "" src.spec.ports s.spec.ports };
  }

  unfoldable pub copy_service : Service → Option ObjectKey → Exec Event (Unit {0})
  copy_service src target = do
    t ← there target
    call (λ u. env.write_service u (beside t src.key.name) (copied_ports src))
        (copied_service (beside t src.key.name))

  -- `CreateOrPatch` reads the target before its function is called, which panics where the service
  -- lacks a port.
  unfoldable pub copy_endpoints : Service → Endpoints → Option ObjectKey → Exec Event (Unit {0})
  unfolding copy_subsets
  copy_endpoints svc src target = do
    t ← there target
    old ← ask (λ u. env.read_endpoints u (beside t svc.key.name))
    subsets ← read_subsets (copy_subsets "" svc.spec src.subsets old.subsets)
    call
        (λ u. env.write_endpoints u (beside t svc.key.name) (record {
          labels = env.overwrite old.labels src.labels;
          annotations = env.overwrite old.annotations src.annotations;
          subsets = subsets;
        }))
        (copied_endpoints (beside t svc.key.name))

  unfoldable pub copy_secret : Secret → Option ObjectKey → Exec Event (Unit {0})
  copy_secret src target = do
    t ← there target
    call (λ u. env.write_secret u (beside t src.key.name) src)
        (copied_secret (beside t src.key.name))

  -- The endpoints of a service, where they are there.
  unfoldable pub copy_its_endpoints : Service → Option ObjectKey → Exec Event (List Error)
  copy_its_endpoints src target =
      check (ask (λ t. env.get_endpoints t src.key)) (λ e. pure (e ∷ []))
        λ ep. attempt (copy_endpoints src ep target)

  unfoldable pub copy_services : List Service → Option ObjectKey → Exec Event (List Error)
  copy_services [] target = pure []
  copy_services (s ∷ ss) target = do
    e1 ← attempt (copy_service s target)
    e2 ← copy_its_endpoints s target
    es ← copy_services ss target
    pure (e1 ++ (e2 ++ es))

  unfoldable pub copy_secrets : List Secret → Option ObjectKey → Exec Event (List Error)
  copy_secrets [] target = pure []
  copy_secrets (s ∷ ss) target = do
    e1 ← attempt (copy_secret s target)
    es ← copy_secrets ss target
    pure (e1 ++ es)

  unfoldable pub copy_rest :
      List Service → List Secret → List Error → Option ObjectKey → Exec Event (List Error)
  copy_rest services secrets failed target = do
    e1 ← copy_services services target
    e2 ← copy_secrets secrets target
    pure (failed ++ (e1 ++ e2))

  -- One Prometheus of a project.
  unfoldable pub copy_to :
      List Service → List Secret → Prometheus → ServiceMonitor → Exec Event (List Error)
  copy_to services secrets p m =
      check (copy_monitor p m) (λ e. copy_rest services secrets (e ∷ []) none)
        λ u. copy_rest services secrets [] (some (target_key p m.key.name))
