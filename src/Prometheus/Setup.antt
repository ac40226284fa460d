-- ===== src/Prometheus/Setup.antt =====
-- `SetupClusterForPrometheus`.
pub mod Registered
pub mod Marks
pub mod Due
use grafana_tools.Base.{
  String, ℕ, Bool, true, false, not, Option, none, some, List, [], ◌∷◌, ◌&&◌, ◌||◌, ◌==◌, Dict,
  index, assign, erase, concat, if◌then◌else◌,
}
use grafana_tools.Kube.{ObjectKey, Error}
use grafana_tools.Kube.Exec.{
  Answer, yields, fails, Exec, pure, fail, ask, look, local, call, branch, check, ◌>>=◌, ◌>>◌,
}
use grafana_tools.Detector.{ServiceSpec}
use grafana_tools.Detector.Prometheus.{
  Detector, openshift_managed, rancher_managed, service_key, service,
}
use grafana_tools.Rancher.{RancherToken, Secret, find_token}
use grafana_tools.Hub.{Backend, grafana, perses}
use grafana_tools.Prometheus.{
  Prometheus, Service, Subject, RoleBinding, GrafanaResponse, PersesResponse, Config, Context,
  Parameters, grafana_parameters, perses_parameters, Event, wrote_service_account,
  wrote_cluster_role, wrote_role_binding, registered_grafana, registered_perses, marked, Env,
}
use grafana_tools.Prometheus.Project.{context_of, create_preset}
use grafana_tools.Prometheus.Bindings.{
  create_prometheus_binding, create_grafana_app_binding, create_perses_app_binding,
}

abbrev pub trickster : String
trickster = "trickster"

abbrev pub trickster_role : String
trickster_role = "appscode:trickster:proxy"

-- What the hub is to reach Prometheus with.
pub record Credentials : Type 0 where
  pub rancher : Option RancherToken
  pub service_account : String
  pub ca : String

abbrev pub bearer_of : Credentials → String
bearer_of c = elim c.rancher [ none ↦ c.service_account | some t ↦ t.token ]

abbrev pub account_key : Prometheus → ObjectKey
account_key p = record { namespace = p.key.namespace; name = trickster }

abbrev pub account : String → Subject
account ns = record { kind = "ServiceAccount"; name = trickster; namespace = ns }

-- The subjects of the role binding; managed spokes have their account in "monitoring".
unfoldable pub subjects : Option RancherToken → Bool → ObjectKey → List Subject
subjects (some t) on_spoke key = record { kind = "User"; name = t.user_id; namespace = "" } ∷ []
subjects none on_spoke key = account (if on_spoke then "monitoring" else key.namespace) ∷ []

unfoldable pub role_binding :
    Detector → Credentials → Bool → ObjectKey → Service → RoleBinding → RoleBinding
unfolding openshift_managed subjects
role_binding d c spoke key svc rb = record rb {
  owner = svc.key.name;
  role = if openshift_managed d then "cluster-monitoring-view" else trickster_role;
  subjects = subjects c.rancher (spoke && not (openshift_managed d)) key;
}

module _ (env : Env) where
  abbrev pub token_mark : Option RancherToken → Dict String → Dict String
  token_mark none m = erase env.texts.token_id_key m
  token_mark (some t) m = assign env.texts.token_id_key t.token_id m

  -- `applyMarkers`
  unfoldable pub apply_markers : String → Option RancherToken → RoleBinding → RoleBinding
  apply_markers state token rb = record rb {
    annotations = token_mark token (assign env.texts.registered_key state rb.annotations);
  }

  abbrev pub other_token : RoleBinding → Option RancherToken → Bool
  other_token rb none = false
  other_token rb (some t) = not (index rb.annotations env.texts.token_id_key == t.token_id)

  -- A registration is due in a new state of the cluster, and with a new token.
  unfoldable pub is_due : RoleBinding → String → Option RancherToken → Bool
  unfolding index
  is_due rb state token =
      not (index rb.annotations env.texts.registered_key == state) || other_token rb token

  unfoldable pub is_legacy : RoleBinding → Bool
  unfolding index
  is_legacy rb = index rb.annotations env.texts.registered_key == "true"

  abbrev pub secret_of : String → ObjectKey
  secret_of name = record { namespace = env.texts.self_namespace; name = name }

  -- `if … else if …` on where Prometheus runs: a token of Rancher, of the service account, or none.
  unfoldable pub credentials : Detector → Prometheus → String → Exec Event Credentials
  unfolding ◌>>=◌ rancher_managed openshift_managed index
  credentials d p state = do
    spoke ← look env.is_ace_spoke
    branch (rancher_managed d && not (env.rancher_secret_name == ""))
        (do
          sec ← ask (λ t. env.get_secret t (secret_of env.rancher_secret_name))
          decode ← look env.decode_token
          token ← local (find_token decode sec state)
          pure (record {
            rancher = some token;
            service_account = "";
            ca = index sec.contents "ca.crt";
          }))
        (branch (not spoke || openshift_managed d)
          (do
            call (λ t. env.write_service_account t (account_key p))
                (wrote_service_account (account_key p))
            sec ← ask (λ t. env.token_secret t (account_key p))
            pure (record {
              rancher = none;
              service_account = index sec.contents "token";
              ca = index sec.contents "ca.crt";
            }))
          (pure (record { rancher = none; service_account = ""; ca = "" })))

  -- The role, and the binding as the cluster has it after the patch.
  unfoldable pub grant : Detector → Prometheus → Credentials → Service → Exec Event RoleBinding
  unfolding ◌>>=◌ openshift_managed role_binding
  grant d p c svc = do
    branch (openshift_managed d) (pure tt) (call env.write_cluster_role wrote_cluster_role)
    spoke ← look env.is_ace_spoke
    call (λ t. env.bind t svc.key.namespace (role_binding d c spoke p.key svc)) wrote_role_binding

  -- The configuration that the hub is told.
  unfoldable pub config_of : Detector → Service → ServiceSpec → Credentials → Exec Event Config
  unfolding ◌>>=◌ openshift_managed
  config_of d svc spec c =
      branch (openshift_managed d)
        (do
          domain ← ask env.apps_domain
          pure (record {
            url =
                concat "https://"
                  (concat svc.key.name (concat "-" (concat svc.key.namespace (concat "." domain))));
            service = none;
            bearer_token = bearer_of c;
            ca = "";
          }))
        (pure (record { url = ""; service = some spec; bearer_token = bearer_of c; ca = c.ca }))

  unfoldable pub mark : Service → String → Option RancherToken → Exec Event (Unit {0})
  mark svc state token = do
    call (λ t. env.bind t svc.key.namespace (apply_markers state token)) marked
    pure tt

  -- The AppBinding of Prometheus, and that of the backend.
  unfoldable pub publish :
      Detector → Prometheus → ServiceSpec → Exec Event (Unit {0}) → Exec Event (Unit {0})
  publish d p spec create = do create_prometheus_binding env d p spec; create

  -- Both registrations, and the AppBindings of the default Prometheus; the mark is the last call.
  unfoldable pub register :
      Detector
      → Prometheus
      → Bool
      → Service
      → ServiceSpec
      → Config
      → String
      → Option RancherToken
      → Exec Event (Unit {0})
  register d p is_default svc spec config state token = do
    ctx ← context_of env p is_default
    resp ← call (λ t. env.register_grafana t ctx config) (registered_grafana ctx config)
    branch is_default (publish d p spec (create_grafana_app_binding env p resp)) (pure tt)
    perses_resp ← call (λ t. env.register_perses t ctx config) (registered_perses ctx config)
    branch is_default (publish d p spec (create_perses_app_binding env p perses_resp)) (pure tt)
    mark svc state token

  -- What is left once the role binding is known.
  unfoldable pub finish :
      Detector
      → Prometheus
      → Bool
      → Service
      → ServiceSpec
      → Config
      → String
      → Option RancherToken
      → RoleBinding
      → Exec Event (Unit {0})
  unfolding is_due is_legacy
  finish d p is_default svc spec config state token rb =
      branch (is_legacy rb) (mark svc state token) (
        branch (env.has_client && is_due rb state token)
          (register d p is_default svc spec config state token) (pure tt))

  unfoldable pub setup : Detector → Prometheus → Bool → Exec Event (Unit {0})
  unfolding service_key service
  setup d p is_default = do
    svc ← ask (λ t. env.get_service t (service_key env.names d p.key))
    cm ← ask env.cluster_metadata
    c ← credentials d p cm.state
    rb ← grant d p c svc
    create_preset env d p is_default
    let spec = service env.names d p.key svc.ports
    config ← config_of d svc spec c
    finish d p is_default svc spec config cm.state c.rancher rb
