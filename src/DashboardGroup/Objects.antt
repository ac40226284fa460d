-- ===== src/DashboardGroup/Objects.antt =====
-- What storage.go reads and gives back: requests, dashboards, AppBindings, links, and the environment.
use grafana_tools.Base.{String, ℕ, Option, none, List}
use grafana_tools.Kube.{ObjectKey}
use grafana_tools.Kube.Exec.{Answer, Exec}
use grafana_tools.Grafana.State.{PersesConfiguration}
use grafana_tools.ClientOrg.{Namespace}
use grafana_tools.DashboardGroup.{Var, Encoding}
use grafana_tools.DashboardGroup.Panels.{PanelRequest, Panel}

pub record Request : Type 0 where
  pub reference : Option ObjectKey
  pub title : String
  pub panels : List PanelRequest
  pub vars : List Var

pub record TimeRange : Type 0 where
  pub from : String
  pub to : String

-- The recorded dashboards of Grafana and of Perses.
pub record GrafanaStatus : Type 0 where
  pub uid : Option String
  pub slug : Option String
  pub org_id : Option ℕ

pub record PersesStatus : Type 0 where
  pub name : String
  pub project_name : String
  pub folder_name : String

pub record GrafanaDashboard : Type 0 where
  pub key : ObjectKey
  pub status : Option GrafanaStatus
  pub model : Option (Answer (List Panel))

pub record PersesDashboard : Type 0 where
  pub key : ObjectKey
  pub status : Option PersesStatus
  pub model : Option (Answer (List (String × Option String)))

-- An AppBinding with its URL and the parameters of Perses.
pub record App : Type 0 where
  pub key : ObjectKey
  pub url : Answer String
  pub perses_parameters : Option (Answer PersesConfiguration)

pub data Resource : Type 0 where
  dashboards apps : Resource

pub data Decision : Type 0 where
  allow : Decision
  refuse : String → Decision

pub record PanelLink : Type 0 where
  pub title : String
  pub url : String
  pub width : ℕ

pub record Response : Type 0 where
  pub reference : Option ObjectKey
  pub title : String
  pub url : String
  pub panels : List PanelLink

-- No call of this part changes anything.
pub data Event : Type 0 where

abbrev pub Act : Type 0 → Type 0
Act A = Exec Event A

-- The answers of the cluster, the authorizer and the libraries; `user` is the user of the request, as to
-- the extra values of its organization. `parse` is `url.Parse`, and
-- `link` puts a query behind a parsed URL with the path joined.
pub record Env : Type 0 where
  pub user : Option (Option (List String))
  pub org_id_key : String
  pub client_namespaces : Answer (List Namespace)
  pub client_title : String → String
  pub get_grafana : ObjectKey → Answer GrafanaDashboard
  pub list_grafana : Option String → String → Answer (List GrafanaDashboard)
  pub get_perses : ObjectKey → Answer PersesDashboard
  pub list_perses : Option String → String → Answer (List PersesDashboard)
  pub authorize : Resource → ObjectKey → Answer Decision
  pub grafana_of : GrafanaDashboard → Answer App
  pub perses_of : PersesDashboard → Answer App
  pub parse : String → Answer (Unit {0})
  pub link : String → List String → String → String
  pub encode_refs : List String → String
  pub encoding : Encoding

abbrev pub no_key : ObjectKey
no_key = record { namespace = ""; name = "" }

abbrev pub no_grafana : GrafanaDashboard
no_grafana = record { key = no_key; status = none; model = none }

abbrev pub no_perses : PersesDashboard
no_perses = record { key = no_key; status = none; model = none }
