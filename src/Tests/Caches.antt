-- ===== src/Tests/Caches.antt =====
-- One AppBinding, read by both kinds of dashboards.
use grafana_tools.Base.{String, none, some, [], ◌∷◌, ◌≡◌, refl, concat, itoa}
use grafana_tools.Kube.Exec.{yields}
use grafana_tools.Grafana.State.{AppBinding, compute_grafana, compute_perses}
use grafana_tools.Grafana.State.History.{of_grafana, of_perses, answer, after, answer-first}

abbrev binding : AppBinding
binding = record {
  key = record { namespace = "monitoring"; name = "grafana" };
  uid = "u1";
  generation = 3;
  grafana_parameters = some (yields (record { datasource = "prom"; folder_id = some 4 }));
  perses_parameters = none;
  url = yields "https://grafana.demo";
}

abbrev hash : String → String
hash s = concat "sha:" s

answer-first_example :
    (answer hash (of_grafana binding) (after hash (of_perses binding ∷ []) [])).1
    ≡ yields "sha:https://grafana.demo,,,0,,0"
unfolding compute_perses itoa
answer-first_example = answer-first hash (of_perses binding ∷ []) (of_grafana binding)

direct : compute_grafana hash binding ≡ yields "sha:https://grafana.demo,prom,4"
unfolding compute_grafana itoa
direct = refl
