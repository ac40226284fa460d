-- ===== src/Watches/Namespaces.antt =====
-- The watches of pkg/controllers/namespace/namespace_controller.go.
use grafana_tools.Base.{String, Bool, not, List, ◌&&◌, ◌||◌, ◌==◌, index}
use grafana_tools.Kube.{ObjectKey}
use grafana_tools.Kube.Exec.{Answer}
use grafana_tools.ClientOrg.{Keys, Namespace}
use grafana_tools.Prometheus.Setup.{trickster}
use grafana_tools.Watches.{Object, listed}

-- The predicate for namespaces; `monitoring_key` is `kmapi.ClientOrgMonitoringKey`.
unfoldable pub is_watched : Keys → (monitoring_key : String) → Object → Bool
unfolding index
is_watched keys monitoring_key obj =
    let v = index obj.labels keys.client_org in
    (v == "true" || v == "terminating") && not (index obj.labels monitoring_key == "false")

-- The predicate for service accounts.
unfoldable pub is_watched_account : Keys → Object → Bool
unfolding index
is_watched_account keys obj =
    obj.key.name == trickster && not (index obj.labels keys.registered == "")

-- The handler for service accounts, over the namespaces labelled "true".
unfoldable pub for_account : Answer (List Namespace) → List ObjectKey
for_account found =
    listed (λ ns. not ns.is_deleted) (λ ns. record { namespace = ""; name = ns.name }) found
