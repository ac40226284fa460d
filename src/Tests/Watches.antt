-- ===== src/Tests/Watches.antt =====
-- Dashboards whose AppBinding changes.
use grafana_tools.Base.{String, true, none, [], ◌∷◌, ◌≡◌, refl, ◌==◌, if◌then◌else◌}
use grafana_tools.Kube.{ObjectKey, not_found}
use grafana_tools.Kube.Exec.{Answer, yields, fails}
use grafana_tools.Grafana.Watch.{Watched, grafana_requests, unresolved_drops_all}

abbrev watched : String → Watched
watched n = record { key = record { namespace = "demo"; name = n }; is_failed = true; state = none }

abbrev binding : ObjectKey
binding = record { namespace = "monitoring"; name = "grafana" }

abbrev resolve : Watched → Answer ObjectKey
resolve d = if d.key.name == "lost" then fails (not_found "gone") else yields binding

unresolved_drops_all_example :
    grafana_requests binding
      (yields "s")
      resolve
      (watched "a" ∷ watched "lost" ∷ watched "b" ∷ [])
      []
    ≡ []
unresolved_drops_all_example =
    unresolved_drops_all binding (yields "s") resolve (watched "a" ∷ []) (watched "b" ∷ [])
      (watched "lost") (not_found "gone") [] refl
