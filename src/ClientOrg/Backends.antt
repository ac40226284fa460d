-- ===== src/ClientOrg/Backends.antt =====
-- backend.go: registering a client organization with the Grafana and Perses backends of the hub.
use grafana_tools.Base.{
  String, Bool, not, List, [], ◌∷◌, ◌++◌, ◌&&◌, ◌||◌, ◌==◌, is_empty, index, concat, none, some,
  assign,
}
use grafana_tools.Kube.{ObjectKey, Error, failed, message}
use grafana_tools.Kube.Exec.{
  Answer, Exec, pure, fail, look, call, branch, attempt, check, ◌>>=◌, ◌>>◌,
}
use grafana_tools.Hub.{Backend, grafana, perses}
use grafana_tools.Prometheus.{Binding, Parameters}
use grafana_tools.Prometheus.Bindings.{type_name}
use grafana_tools.ClientOrg.Config.{in_namespace}
use grafana_tools.ClientOrg.{Keys, Namespace, ab_client_org_grafana, ab_client_org_perses}

abbrev pub binding_name : Backend → String
binding_name grafana = ab_client_org_grafana
binding_name perses = ab_client_org_perses

abbrev pub backend_name : Backend → String
backend_name grafana = "grafana"
backend_name perses = "perses"

-- The function given to `CreateOrPatch` for an AppBinding; a CA that is missing leaves the bundle empty,
-- as the client's configuration is set anew.
unfoldable pub client_binding : Backend → String → Parameters → String → Binding → Binding
client_binding k url params ca_cert b = record b {
  type = type_name k;
  app_ref = none;
  url = some url;
  service = none;
  ca_bundle = ca_cert;
  server_name = "";
  secret = some (concat (binding_name k) "-auth");
  parameters = some params;
}

-- The function of `setNamespaceMarker`
unfoldable pub with_marker : String → String → Namespace → Namespace
with_marker registered_key state ns = record ns {
  annotations = assign registered_key state ns.annotations;
}

-- A call that changes something, with its outcome. `Registration` is what a backend answers; `url_of`,
-- `token_of` and `parameters_of` are its parts.
pub data Event (Registration : Type 0) : Type 0 where
  registered : Backend → Answer Registration → Event Registration
  wrote_binding : Backend → Registration → Answer (Unit {0}) → Event Registration
  wrote_secret : Backend → Registration → Answer (Unit {0}) → Event Registration
  stamped : String → Answer (Unit {0}) → Event Registration

pub record Env (Registration : Type 0) : Type 0 where
  pub keys : Keys
  pub binding_exists : List (Event Registration) → Backend → Bool
  pub url_of : Registration → String
  pub token_of : Registration → String
  pub parameters_of : Registration → Parameters
  pub ca_cert : String
  pub register : List (Event Registration) → Backend → Answer Registration
  pub write_binding :
      List (Event Registration) → ObjectKey → (Binding → Binding) → Answer (Unit {0})
  pub write_secret : List (Event Registration) → ObjectKey → (token : String) → Answer (Unit {0})
  pub patch : List (Event Registration) → Namespace → (Namespace → Namespace) → Answer (Unit {0})
  pub aggregate : Error → List Error → Error

module _ {Registration : Type 0} (env : Env Registration) where
  abbrev Act : Type 0 → Type 0
  Act A = Exec (Event Registration) A

  -- `CreateGrafanaAppBinding`, `CreatePersesAppBinding`: an error of the secret is dropped.
  unfoldable pub create_app_binding : Backend → String → Registration → Act (Unit {0})
  unfolding ◌>>=◌ client_binding
  create_app_binding b mon r = do
    call
        (λ t.
          env.write_binding t (in_namespace mon (binding_name b))
            (client_binding b (env.url_of r) (env.parameters_of r) env.ca_cert))
        (wrote_binding b r)
    check
        (call
          (λ t.
            env.write_secret t (in_namespace mon (concat (binding_name b) "-auth"))
              (env.token_of r))
          (wrote_secret b r))
        (λ e. pure tt) pure

  abbrev pub create_grafana_app_binding : String → Registration → Act (Unit {0})
  create_grafana_app_binding mon r = create_app_binding grafana mon r

  abbrev pub create_perses_app_binding : String → Registration → Act (Unit {0})
  create_perses_app_binding mon r = create_app_binding perses mon r

  -- A registration, and what is done with its answer.
  unfoldable pub register_backend :
      Backend → String → (Registration → Act (Unit {0})) → Act (Unit {0})
  unfolding check call fail create_app_binding
  register_backend b client_org_id publish =
      check (call (λ t. env.register t b) (registered b))
        (λ e. fail (
          failed (
            concat "failed to register " (
              concat (backend_name b) (
                concat " backend for client-org "
                  (concat client_org_id (concat ": " (message e))))))))
        publish

  abbrev pub register_grafana_backend : String → String → Act (Unit {0})
  register_grafana_backend mon client_org_id =
      register_backend grafana client_org_id (create_grafana_app_binding mon)

  abbrev pub register_perses_backend : String → String → Act (Unit {0})
  register_perses_backend mon client_org_id =
      register_backend perses client_org_id (create_perses_app_binding mon)

  unfoldable pub is_stale : Namespace → String → Bool
  unfolding index
  is_stale mon state = not (index mon.annotations env.keys.registered == state)

  -- One backend is registered when the marker is stale or its AppBinding is missing.
  unfoldable pub refresh : Backend → Namespace → String → Act (Unit {0}) → Act (List Error)
  unfolding ◌>>=◌ attempt register_backend is_stale
  refresh b mon state register = do
    exists ← look (λ t. env.binding_exists t b)
    branch (is_stale mon state || not exists) (attempt register) (pure [])

  abbrev pub report : List Error → Act (Unit {0})
  report [] = pure tt
  report (e ∷ es) = fail (env.aggregate e es)

  unfoldable pub set_namespace_marker : Namespace → String → Act (Unit {0})
  unfolding call with_marker
  set_namespace_marker mon state =
      call (λ t. env.patch t mon (with_marker env.keys.registered state)) (stamped state)

  -- `registerBackends`: the marker is stamped only when neither backend had an error.
  unfoldable pub register_backends : Namespace → String → String → Act (Unit {0})
  unfolding ◌>>=◌ attempt refresh set_namespace_marker
  register_backends mon client_org_id state = do
    grafana_errors ← refresh grafana mon state (register_grafana_backend mon.name client_org_id)
    perses_errors ← refresh perses mon state (register_perses_backend mon.name client_org_id)
    stamp_errors ←
        branch (is_empty grafana_errors && is_empty perses_errors)
          (attempt (set_namespace_marker mon state)) (pure [])
    report (grafana_errors ++ perses_errors ++ stamp_errors)
