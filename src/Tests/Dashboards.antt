-- ===== src/Tests/Dashboards.antt =====
-- A dashboard on its way to Grafana, updated and deleted.
use grafana_tools.Base.{String, true, false, none, some, [], ◌∷◌, ◌≡◌, refl, All, itoa}
use grafana_tools.Kube.{failed}
use grafana_tools.Kube.Exec.{Answer, yields}
use grafana_tools.Json.{
  text, flag, array, object, Items, no_items, item, Fields, field, no_fields, Raw, json, get, put,
}
use grafana_tools.Grafana.Panels.{updated_panels, update_panel, replace_datasource}
use grafana_tools.Grafana.State.{AppBinding, grafana_state}
use grafana_tools.Grafana.Dashboard.{
  Dashboard, DashboardRef, Accepted, Response, accepted, refused, Env, unset, finalizer,
  reconcile_deleted, set_dashboard,
}
use grafana_tools.Grafana.Dashboard.Finalizer.{ReleasesSafely, deletion_safe}
use grafana_tools.Grafana.Dashboard.Outcomes.{Settles, set_dashboard-Settles}
use grafana_tools.Grafana.Dashboard.Update.{Carries, uploads, updates_in_place}

abbrev graph : Fields
graph = field "title" (text "cpu") (field "datasource" (text "old") no_fields)

abbrev row : Fields
row =
    field "collapsed" (flag true) (field "panels" (array (item (object graph) no_items)) no_fields)

abbrev panels : Items
panels = item (object graph) (item (text "noise") (item (object row) no_items))

row_updated :
    updated_panels "new" (item (text "noise") (item (object row) no_items))
    ≡ item
        (object (
          field "collapsed" (flag true) (
            field "panels"
              (array (item (object (put "datasource" (text "new") graph)) no_items))
              (field "datasource" (text "new") no_fields))))
        no_items
unfolding updated_panels update_panel put get
row_updated = refl

abbrev vars : Items
vars =
    item (object (field "type" (text "query") no_fields))
      (item (object (field "type" (text "datasource") no_fields)) no_items)

abbrev model : Raw
model = json (object (field "title" (text "cluster") (field "panels" (array panels) no_fields)))

abbrev replaced_model : Raw
replaced_model = json (
    object (
      field "title" (text "cluster")
        (field "panels" (array (updated_panels "new" panels)) no_fields)))

replaced : replace_datasource model "new" ≡ yields replaced_model
unfolding replace_datasource get put
replaced = refl

abbrev binding : AppBinding
binding = record {
  key = record { namespace = "monitoring"; name = "grafana" };
  uid = "u1";
  generation = 3;
  grafana_parameters = some (yields (record { datasource = "new"; folder_id = some 4 }));
  perses_parameters = none;
  url = yields "https://grafana";
}

abbrev known : DashboardRef
known = record {
  id = some 12;
  uid = some "abc";
  slug = none;
  url = none;
  org_id = some 1;
  version = some 5;
  state = none;
}

abbrev dashboard : Dashboard
dashboard = record {
  key = record { namespace = "demo"; name = "db" };
  generation = 2;
  is_deleted = false;
  finalizers = finalizer ∷ [];
  model = some model;
  templatize = some true;
  phase = unset;
  reason = "";
  observed_generation = 1;
  conditions = [];
  dashboard = some known;
}

abbrev answer_to : Response Accepted → Env
answer_to r = record {
  get = λ t. yields dashboard;
  patch_status = λ t x f. yields (f x);
  create_or_patch = λ t x f. yields (f x);
  patch = λ t x. yields tt;
  get_grafana = λ t x. yields binding;
  connect = λ t x. yields tt;
  set_dashboard = λ t u. r;
  delete_dashboard = λ t uid. refused (some 404) (failed "not found");
  current_org = λ t. yields (some 1);
  hash = λ s. s;
  set_condition = λ cs c. c ∷ cs;
  with_finalizer = λ fs f. f ∷ fs;
  without_finalizer = λ fs f. [];
  requeue_after_duration = 60;
}

abbrev accepting : Env
accepting = answer_to (
    accepted (record { id = some 12; uid = some "abc"; slug = none; url = none; version = some 6 }))

set_dashboard-Settles_example : Settles accepting (set_dashboard accepting dashboard [])
set_dashboard-Settles_example = set_dashboard-Settles accepting dashboard []

deletion_safe_example :
    ReleasesSafely accepting dashboard (reconcile_deleted accepting dashboard []).1
deletion_safe_example = deletion_safe accepting dashboard

abbrev fingerprinted : Answer String
fingerprinted = yields "https://grafana,new,4"

updates_in_place_example :
    All (λ u. Carries 12 "abc" u.model) (uploads (set_dashboard accepting dashboard []).1)
unfolding grafana_state itoa
updates_in_place_example =
    updates_in_place accepting dashboard binding
      ((record { uid = "u1"; generation = 3 }, fingerprinted) ∷ []) "https://grafana,new,4" model
      known 12 "abc" refl refl refl refl refl refl refl
