-- ===== src/DashboardGroup/Create.antt =====
-- `Create` of storage.go, with `datasource` and `appNamespace`.
pub mod Answered
use grafana_tools.Base.{
  String, ℕ, Bool, true, false, not, Option, none, some, List, [], ◌∷◌, ◌&&◌, ◌==◌, map, concat,
  if◌then◌else◌,
}
use grafana_tools.Kube.{ObjectKey, Error, bad_request, unavailable, internal, message}
use grafana_tools.Kube.Exec.{
  Answer, yields, fails, Outcome, ok, Exec, pure, fail, crash, ask, branch, check, ◌>>=◌, ◌>>◌,
}
use grafana_tools.Detector.Prometheus.{Detector, federated}
use grafana_tools.DashboardGroup.{Var, is_source, set_datasource, upsert_datasource_var}
use grafana_tools.DashboardGroup.Objects.{Request, Response, TimeRange, Event, Act, Env}
use grafana_tools.DashboardGroup.Links.{get_dashboard_link}

pub record GroupRequest : Type 0 where
  pub app : Option ObjectKey
  pub dashboards : List Request
  pub refresh_interval : String
  pub time_range : Option TimeRange
  pub embedded_link : Bool

pub record Group : Type 0 where
  pub request : Option GroupRequest
  pub response : List Response

-- What the detector and the cluster answer. A detector that is not ready is none.
pub record Cluster : Type 0 where
  pub ready : Answer (Option Detector)
  pub name : Answer String
  pub system_project : Answer (Option String)
  pub project_of : String → Answer (Option String)

abbrev pub namespace_var : List Var → String
namespace_var [] = ""
namespace_var (v ∷ vs) =
    if is_source v.type && v.name == "namespace" then v.value else namespace_var vs

unfoldable pub app_namespace : Option ObjectKey → List Var → String
app_namespace none vars = namespace_var vars
app_namespace (some app) vars = if app.namespace == "" then namespace_var vars else app.namespace

-- `in.Request.Dashboards[0].Vars`
abbrev pub first_vars : List Request → Act (List Var)
first_vars [] = crash "index out of range"
first_vars (r ∷ rs) = pure r.vars

abbrev pub project_datasource : String → Option String → Option String → String
project_datasource cluster (some system) (some project) =
    if project == system then cluster else concat cluster (concat "-" project)
project_datasource cluster _ _ = cluster

module _ (c : Cluster) where
  unfoldable pub datasource : Detector → GroupRequest → Act String
  unfolding ◌>>=◌ federated app_namespace
  datasource d req = do
    cluster ← ask (λ t. c.name)
    branch (federated d)
        (do
          vars ← first_vars req.dashboards
          branch (app_namespace req.app vars == "") (pure cluster) (do
            system ← ask (λ t. c.system_project)
            project ← ask (λ t. c.project_of (app_namespace req.app vars))
            pure (project_datasource cluster system project)))
        (pure cluster)

  abbrev pub detector_of : Option Detector → Act Detector
  detector_of none = fail (unavailable "prometheus is not ready")
  detector_of (some d) = pure d

  unfoldable pub ready_detector : Act Detector
  unfolding ◌>>=◌
  ready_detector = check (ask (λ t. c.ready)) (λ e. fail (internal (message e))) detector_of

module _ (env : Env) (c : Cluster) where
  abbrev pub upserted : String → Request → Request
  upserted ds r = record r { vars = upsert_datasource_var r.vars ds }

  -- The loop over the requests.
  unfoldable pub links : GroupRequest → String → List Request → Act (List Response)
  links g ds [] = pure []
  links g ds (r ∷ rs) = do
    x ← get_dashboard_link env (upserted ds r) g.refresh_interval g.time_range g.embedded_link
    xs ← links g ds rs
    pure (x ∷ xs)

  -- The request goes back with the response; what was set in place in its variables stays set.
  abbrev pub rewritten : String → Request → Request
  rewritten ds r = record r { vars = set_datasource ds r.vars }

  abbrev pub echoed : String → GroupRequest → GroupRequest
  echoed ds g = record g { dashboards = map (rewritten ds) g.dashboards }

  abbrev pub answered : GroupRequest → String → List Response → Group
  answered g ds rs = record { request = some (echoed ds g); response = rs }

  abbrev pub required : Option GroupRequest → Act GroupRequest
  required none = fail (bad_request "missing apirequest")
  required (some g) = pure g

  unfoldable pub create : Group → Act Group
  create group = do
    g ← required group.request
    d ← ready_detector c
    ds ← datasource c d g
    rs ← links g ds g.dashboards
    pure (answered g ds rs)
