-- ===== src/Tests/Handlers.antt =====
-- Changes of a service and of a secret.
use grafana_tools.Base.{String, Bool, false, none, some, [], ◌∷◌, ◌≡◌, refl, ◌==◌, index, Dict}
use grafana_tools.Kube.{ObjectKey, failed}
use grafana_tools.Kube.Exec.{Answer, yields, fails}
use grafana_tools.Watches.{Object}
use grafana_tools.Watches.ServiceMonitors.{Monitor, for_service, for_service-concerns}
use grafana_tools.Watches.Settings.{App, for_secret}

abbrev key : String → String → ObjectKey
key ns name = record { namespace = ns; name = name }

abbrev service : Object
service = record { key = key "demo" "web"; labels = ("app", "web") ∷ []; annotations = [] }

abbrev monitor : String → Answer (Dict String → Bool) → Monitor
monitor name selector = record {
  key = key "monitoring" name;
  any_namespace = false;
  match_names = "demo" ∷ [];
  selector = selector;
}

abbrev selecting : String → Answer (Dict String → Bool)
selecting app = yields (λ labels. index labels "app" == app)

for_service-concerns_example :
    for_service service (yields (monitor "a" (selecting "web") ∷ monitor "b" (selecting "db") ∷ []))
    ≡ key "monitoring" "a" ∷ []
unfolding index
for_service-concerns_example =
    for_service-concerns service (monitor "a" (selecting "web") ∷ monitor "b" (selecting "db") ∷ [])

for_service_unreadable :
    for_service service
      (yields (monitor "a" (selecting "web") ∷ monitor "b" (fails (failed "bad")) ∷ []))
    ≡ []
unfolding for_service index
for_service_unreadable = refl

abbrev app : String → App
app name = record { key = key "monitoring" name; secret = some name; tls_secret = none }

secret_followed :
    for_secret (key "monitoring" "b") (yields (app "a" ∷ app "b" ∷ app "c" ∷ []))
    ≡ key "monitoring" "b" ∷ []
unfolding for_secret
secret_followed = refl
