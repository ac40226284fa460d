-- ===== src/Tests/PersesDashboards.antt =====
-- A Perses dashboard on its way to Perses, updated and deleted.
use grafana_tools.Base.{
  String, ℕ, false, none, some, [], ◌∷◌, ◌≡◌, refl, concat, ◌==◌, if◌then◌else◌, Dict, index,
}
use grafana_tools.Kube.{ObjectKey}
use grafana_tools.Kube.Exec.{Answer, yields, Outcome, ok, panic}
use grafana_tools.Json.{object, text, field, no_fields, put, get}
use grafana_tools.Grafana.State.{AppBinding, PersesConfiguration}
use grafana_tools.Net.{Client, client_with, preset, Response, Url}
use grafana_tools.Grafana.Client.{App}
use grafana_tools.Perses.Requests.{request, new_perses_client}
use grafana_tools.Perses.Requests.Addressed.{client-authorization}
use grafana_tools.Perses.Variables.{Variable, Query, Panel, PersesModel, update_datasource_variable}
use grafana_tools.Perses.Variables.Settled.{IsSettled, update-IsSettled}
use grafana_tools.Perses.Dashboard.{Dashboard, Env, unset, finalizer, reconcile_deleted}
use grafana_tools.Perses.Dashboard.Ends.{ReleasesSafely, perses_deletion_safe}

abbrev chosen : Variable
chosen = record {
  kind = "ListVariable";
  spec_name = "datasource";
  list_spec = some (record {
    name = "datasource";
    default_value = none;
    plugin_kind = "StaticListVariable";
    plugin_spec = object no_fields;
  });
}

abbrev queried : Variable
queried = record {
  kind = "ListVariable";
  spec_name = "namespace";
  list_spec = some (record {
    name = "namespace";
    default_value = some "demo";
    plugin_kind = "PrometheusLabelValuesVariable";
    plugin_spec = object (field "labelName" (text "namespace") no_fields);
  });
}

abbrev query : Query
query = record {
  kind = "TimeSeriesQuery";
  plugin_kind = "PrometheusTimeSeriesQuery";
  plugin_spec = object (field "query" (text "up") no_fields);
}

abbrev graph : Panel
graph = record { title = "cpu"; queries = query ∷ [] }

abbrev model : PersesModel
model = record {
  name = "cluster";
  project = "";
  project_id = 0;
  folder_name = "";
  folder_id = 0;
  display_name = "Cluster";
  variables = chosen ∷ queried ∷ [];
  panels = ("0", some graph) ∷ [];
}

abbrev settled : Outcome PersesModel → PersesModel
settled (ok m) = m
settled _ = model

abbrev updated : PersesModel
updated = settled (update_datasource_variable model "prom")

update-IsSet_example : IsSettled "prom" model updated
unfolding update_datasource_variable get put
update-IsSet_example = update-IsSettled model updated "prom" refl

abbrev config : PersesConfiguration
config = record {
  datasource = "prom";
  project_name = "p";
  project_id = 1;
  folder_name = "f";
  folder_id = 2;
}

abbrev binding : AppBinding
binding = record {
  key = record { namespace = "monitoring"; name = "perses" };
  uid = "u2";
  generation = 1;
  grafana_parameters = none;
  perses_parameters = some (yields config);
  url = yields "https://perses";
}

abbrev dashboard : Dashboard
dashboard = record {
  key = record { namespace = "demo"; name = "db" };
  generation = 2;
  is_deleted = false;
  finalizers = finalizer ∷ [];
  model = some (yields model);
  phase = unset;
  reason = "";
  observed_generation = 1;
  conditions = [];
  dashboard =
      some (record { name = "cluster"; project_name = "p"; folder_name = "f"; state = none });
}

abbrev perses_client : Client
perses_client = client_with "https://perses.demo" "t0" "" preset

abbrev response : ℕ → Response
response status = record { status = status; body = yields "" }

abbrev answering : ℕ → Env
answering status = record {
  get = λ t. yields dashboard;
  patch_status = λ t x f. yields (f x);
  create_or_patch = λ t x f. yields (f x);
  patch = λ t x. yields tt;
  get_perses = λ t x. yields binding;
  connect = λ t x. yields perses_client;
  http = λ t. record {
    address = λ base path. yields (concat base (concat "/" path));
    encode = λ m. yields m.name;
    send = λ transport q. yields (response (if q.method == "POST" then status else 404));
  };
  texts = record { trim = λ s. s; status_text = λ n. ""; quote = λ s. s };
  hash = λ s. s;
  set_condition = λ cs c. c ∷ cs;
  with_finalizer = λ fs f. f ∷ fs;
  without_finalizer = λ fs f. [];
  requeue_after_duration = 60;
}

perses_deletion_safe_example :
    ReleasesSafely (answering 200) dashboard (reconcile_deleted (answering 200) dashboard []).1
perses_deletion_safe_example = perses_deletion_safe (answering 200) dashboard

nil_panel :
    update_datasource_variable (record model { panels = ("0", none) ∷ [] }) "prom"
    ≡ panic "nil dereference of a panel"
unfolding update_datasource_variable get put
nil_panel = refl

abbrev app : App
app = record {
  key = record { namespace = "monitoring"; name = "perses" };
  is_deleted = false;
  url = yields "https://perses.demo";
  secret = some "perses-auth";
  ca_bundle = "";
}

abbrev parsed : String → Answer Url
parsed s = yields (record { scheme = "https"; hostname = "perses.demo" })

abbrev login : ObjectKey → Answer (Dict String)
login k = yields (("username", "admin") ∷ ("password", "secret") ∷ [])

client-authorization_example :
    (request
      (client_with "https://perses.demo" "" "" preset)
      "POST"
      (some "{}")
      "https://perses.demo").authorization
    ≡ none
unfolding new_perses_client index
client-authorization_example =
    client-authorization parsed (λ s. false) login app "perses-auth"
      (("username", "admin") ∷ ("password", "secret") ∷ [])
      (client_with "https://perses.demo" "" "" preset) refl refl refl refl "POST"
      "https://perses.demo" (some "{}")
