-- ===== src/Watches/Indexes.antt =====
-- The field indexes that pkg/apiserver/apiserver.go registers, by which lists are narrowed.
use grafana_tools.Base.{String, Option, none, some, List, [], ◌∷◌, if◌then◌else◌}
use grafana_tools.Kube.{ObjectKey}
use grafana_tools.Kube.Exec.{Answer, yields, fails, Outcome, ok, panic}
use grafana_tools.Watches.{Object, has_entry}

-- AppBindings marked as the default; `default_key` is `mona.DefaultGrafanaKey` or `mona.DefaultPersesKey`.
unfoldable pub app_values : (default_key : String) → Object → List String
unfolding has_entry
app_values default_key obj =
    if has_entry default_key "true" obj.annotations then "true" ∷ [] else []

abbrev pub found_values : (default_key : String) → Answer Object → List String
unfolding app_values
found_values default_key (fails e) = []
found_values default_key (yields app) = app_values default_key app

-- Dashboards of the default Grafana or Perses: those that refer to none, or to the default one. The key is
-- that of the reference as it stands.
unfoldable pub dashboard_values :
    (default_key : String) → (ObjectKey → Answer Object) → Option ObjectKey → List String
unfolding app_values
dashboard_values default_key get none = "true" ∷ []
dashboard_values default_key get (some ref) = found_values default_key (get ref)

-- The title of a GrafanaDashboard, where its model can be decoded.
unfoldable pub grafana_titles : Option (Answer String) → List String
grafana_titles none = []
grafana_titles (some (fails e)) = []
grafana_titles (some (yields title)) = title ∷ []

abbrev pub displayed : Option String → Outcome (List String)
displayed none = panic "nil dereference of the display"
displayed (some name) = ok (name ∷ [])

-- The name that a PersesDashboard is displayed by; the display is optional, and is dereferenced.
unfoldable pub perses_titles : Option (Answer (Option String)) → Outcome (List String)
perses_titles none = ok []
perses_titles (some (fails e)) = ok []
perses_titles (some (yields display)) = displayed display
