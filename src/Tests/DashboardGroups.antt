-- ===== src/Tests/DashboardGroups.antt =====
-- A group of dashboards that a user asks for.
use grafana_tools.Base.{String, true, false, none, some, List, [], ◌∷◌, ◌≡◌, refl, All, concat}
use grafana_tools.Kube.{ObjectKey}
use grafana_tools.Kube.Exec.{yields, ok, ◌>>=◌}
use grafana_tools.Detector.Prometheus.{Detector, rancher, federated}
use grafana_tools.DashboardGroup.{
  Var, source, target, Encoding, add_vars, has_datasource, set_datasource, upsert_datasource_var,
}
use grafana_tools.DashboardGroup.Vars.{others, Reads, upsert_lem}
use grafana_tools.DashboardGroup.Objects.{Request, GrafanaDashboard, App, allow, Env, no_perses}
use grafana_tools.DashboardGroup.Find.{find_grafana, find_perses, authorize}
use grafana_tools.DashboardGroup.Links.{get_dashboard_link, direct}
use grafana_tools.DashboardGroup.Create.{
  Cluster, Group, GroupRequest, create, links, ready_detector, datasource,
}
use grafana_tools.DashboardGroup.Create.Answered.{IsAnswered, create-IsAnswered}

abbrev var : String → String → Var
var n v = record { name = n; value = v; type = source }

abbrev aimed : Var
aimed = record { name = "pod"; value = "$pod"; type = target }

abbrev encoding : Encoding
encoding = record { var_name = λ v. concat "var-" v.name; escape = λ s. s; encode = λ q. "q" }

abbrev vars : List Var
vars = var "namespace" "demo" ∷ aimed ∷ []

upsert_lem_example :
    (has_datasource (upsert_datasource_var vars "ds") ≡ true)
    × All (Reads "ds") (upsert_datasource_var vars "ds")
    × (others (upsert_datasource_var vars "ds") ≡ others vars)
upsert_lem_example = upsert_lem "ds" vars

query : add_vars encoding [] (upsert_datasource_var vars "ds") ≡ "q&var-pod=$pod"
unfolding add_vars upsert_datasource_var
query = refl

abbrev key : ObjectKey
key = record { namespace = "monitoring"; name = "pods" }

abbrev board : GrafanaDashboard
board = record {
  key = key;
  status = some (record { uid = some "u"; slug = some "pods"; org_id = some 1 });
  model = some (yields []);
}

abbrev app : App
app = record {
  key = record { namespace = "monitoring"; name = "default-grafana" };
  url = yields "https://grafana";
  perses_parameters = none;
}

abbrev no_app : App
no_app = record { key = key; url = yields ""; perses_parameters = none }

abbrev env : Env
env = record {
  user = some none;
  org_id_key = "ace.appscode.com/org-id";
  client_namespaces = yields [];
  client_title = λ t. t;
  get_grafana = λ k. yields board;
  list_grafana = λ ns t. yields (board ∷ []);
  get_perses = λ k. yields no_perses;
  list_perses = λ ns t. yields (no_perses ∷ []);
  authorize = λ r k. yields allow;
  grafana_of = λ d. yields app;
  perses_of = λ d. yields no_app;
  parse = λ u. yields tt;
  link = λ host path q. concat host (concat "/d/pods?" q);
  encode_refs = λ rs. "[]";
  encoding = encoding;
}

abbrev request : Request
request = record { reference = none; title = "pods"; panels = []; vars = vars }

abbrev cluster : Detector → Cluster
cluster d = record {
  ready = yields (some d);
  name = yields "c";
  system_project = yields none;
  project_of = λ ns. yields none;
}

abbrev asking : List Request → GroupRequest
asking rs = record {
  app = none;
  dashboards = rs;
  refresh_interval = "";
  time_range = none;
  embedded_link = false;
}

abbrev group : Group
group = record { request = some (asking (request ∷ [])); response = [] }

abbrev empty_group : Group
empty_group = record { request = some (asking []); response = [] }

abbrev made : Group
made = record {
  request = some (asking (request ∷ []));
  response =
      record {
        reference = none;
        title = "pods";
        url = "https://grafana/d/pods?q&var-pod=$pod";
        panels = [];
      }
      ∷ [];
}

answered : (create env (cluster rancher) group []).0 ≡ ok made
unfolding create ◌>>=◌ ready_detector datasource links get_dashboard_link find_grafana find_perses
    authorize direct set_datasource add_vars upsert_datasource_var
answered = refl

create-IsAnswered_example : IsAnswered env (cluster rancher) group.request made
create-IsAnswered_example = create-IsAnswered env (cluster rancher) group made answered

federates : federated rancher ≡ true
unfolding federated
federates = refl
