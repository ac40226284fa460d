-- ===== src/Perses/Variables.antt =====
-- `updateDatasourceVariable` of persesdashboard_controller.go, on the dashboards of
-- github.com/perses/perses as far as it reads them.
pub mod Settled
use grafana_tools.Base.{
  String, ℕ, Bool, true, false, not, Option, none, some, List, [], ◌∷◌, ◌&&◌, ◌||◌, ◌==◌, is_some,
  concat, if◌then◌else◌,
}
use grafana_tools.Kube.{Error, failed}
use grafana_tools.Kube.Exec.{Answer, yields, fails, Outcome, ok, err, panic}
use grafana_tools.Json.{Value, object, text, Fields, field, no_fields, get, put}

-- `dashboard.ListVariableSpec`; the default is a single value where it is one.
pub record ListSpec : Type 0 where
  pub name : String
  pub default_value : Option String
  pub plugin_kind : String
  pub plugin_spec : Value

-- `dashboard.Variable`: `list_spec` is none where the spec is of another type, which still has a name.
pub record Variable : Type 0 where
  pub kind : String
  pub spec_name : String
  pub list_spec : Option ListSpec

pub record Query : Type 0 where
  pub kind : String
  pub plugin_kind : String
  pub plugin_spec : Value

pub record Panel : Type 0 where
  pub title : String
  pub queries : List Query

-- `v1.Dashboard`; the panels are a map of pointers, whose order is not kept by Go, and which may be nil.
pub record PersesModel : Type 0 where
  pub name : String
  pub project : String
  pub project_id : ℕ
  pub folder_name : String
  pub folder_id : ℕ
  pub display_name : String
  pub variables : List Variable
  pub panels : List (String × Option Panel)

-- `if _, exists := m[k]; !exists { m[k] = v }`
abbrev pub put_absent : String → Value → Fields → Fields
put_absent k v fs = if is_some (get k fs) then fs else put k v fs

abbrev pub in_object : (Fields → Fields) → Value → Value
in_object f (object fs) = object (f fs)
in_object f v = v

abbrev pub datasource_of : String → Value
datasource_of ds =
    object (field "kind" (text "PrometheusDatasource") (field "name" (text ds) no_fields))

abbrev pub is_prometheus_variable : String → Bool
is_prometheus_variable k = k == "PrometheusLabelValuesVariable" || k == "PrometheusPromQLVariable"

unfoldable pub update_list : String → ListSpec → ListSpec
update_list ds spec =
    if spec.name == "datasource"
    then record spec { default_value = some ds }
    else if is_prometheus_variable spec.plugin_kind
    then record spec {
      plugin_spec = in_object (put_absent "datasource" (datasource_of ds)) spec.plugin_spec;
    }
    else spec

abbrev pub update_spec : String → Variable → Option ListSpec → Answer Variable
update_spec ds v none =
    fails (failed (concat "variable " (concat v.spec_name " is not ListVariableSpec")))
update_spec ds v (some spec) = yields (record v { list_spec = some (update_list ds spec) })

unfoldable pub update_variable : String → Variable → Answer Variable
unfolding update_list
update_variable ds v = if v.kind == "ListVariable" then update_spec ds v v.list_spec else yields v

abbrev pub prepend : {A : Type 0} → Answer A → Answer (List A) → Answer (List A)
prepend (fails e) rest = fails e
prepend (yields a) (fails e) = fails e
prepend (yields a) (yields as') = yields (a ∷ as')

-- The first loop; it stops at the first variable of the wrong type.
unfoldable pub update_variables : String → List Variable → Answer (List Variable)
unfolding update_variable
update_variables ds [] = yields []
update_variables ds (v ∷ vs) = prepend (update_variable ds v) (update_variables ds vs)

unfoldable pub update_query : Query → Query
update_query q =
    if q.kind == "TimeSeriesQuery" && q.plugin_kind == "PrometheusTimeSeriesQuery"
    then record q {
      plugin_spec = in_object (put_absent "datasource" (text "$datasource")) q.plugin_spec;
    }
    else q

abbrev pub each : {A B : Type 0} → (A → B) → List A → List B
each f [] = []
each f (a ∷ r) = f a ∷ each f r

abbrev pub and_panel :
    String × Option Panel
    → Outcome (List (String × Option Panel))
    → Outcome (List (String × Option Panel))
and_panel p (ok ps) = ok (p ∷ ps)
and_panel p (err e) = err e
and_panel p (panic why) = panic why

unfoldable pub update_panel : Panel → Panel
unfolding update_query
update_panel p = record p { queries = each update_query p.queries }

-- The second loop: a panel that is nil is dereferenced.
unfoldable pub update_panels : List (String × Option Panel) → Outcome (List (String × Option Panel))
unfolding update_panel
update_panels [] = ok []
update_panels ((k, none) ∷ ps) = panic "nil dereference of a panel"
update_panels ((k, some p) ∷ ps) = and_panel (k, some (update_panel p)) (update_panels ps)

abbrev pub with_panels : PersesModel → Outcome (List (String × Option Panel)) → Outcome PersesModel
with_panels m (ok ps) = ok (record m { panels = ps })
with_panels m (err e) = err e
with_panels m (panic why) = panic why

abbrev pub with_variables : PersesModel → Answer (List Variable) → Outcome PersesModel
with_variables m (fails e) = err e
with_variables m (yields vs) = with_panels (record m { variables = vs }) (update_panels m.panels)

unfoldable pub update_datasource_variable : PersesModel → String → Outcome PersesModel
unfolding update_variables update_panels
update_datasource_variable m ds = with_variables m (update_variables ds m.variables)
