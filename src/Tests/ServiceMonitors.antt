-- ===== src/Tests/ServiceMonitors.antt =====
-- A service with its endpoints, copied.
use grafana_tools.Base.{String, ℕ, Option, none, some, List, [], ◌∷◌, ◌≡◌, refl}
use grafana_tools.Base.{is_some}
use grafana_tools.ServiceMonitor.Ports.{
  ServicePort, EndpointPort, Subset, Service, service_port_for_name, copy_subsets,
  upsert_endpoint_port,
}
use grafana_tools.ServiceMonitor.Federated.{all_known, copy_subsets-defined}
use grafana_tools.ServiceMonitor.Resolved.{Resolved, copy_subsets-Resolved}

abbrev port : String → ℕ → ServicePort ℕ
port n p = record { name = n; port = p; target_port = 0; rest = 1 }

abbrev endpoint : String → ℕ → EndpointPort ℕ
endpoint n p = record { name = n; port = p; rest = 1 }

abbrev service : Service ℕ
service = record { cluster_ip = "10.0.0.1"; ports = port "metrics" 8080 ∷ port "admin" 9090 ∷ [] }

abbrev sources : List (Subset ℕ)
sources = record { addresses = "10.1.0.1" ∷ []; ports = endpoint "metrics" 80 ∷ [] } ∷ []

abbrev targets : List (Subset ℕ)
targets = record { addresses = []; ports = endpoint "admin" 1 ∷ [] } ∷ []

abbrev results : Option (List (Subset ℕ)) → List (Subset ℕ)
results none = []
results (some rs) = rs

abbrev copied : List (Subset ℕ)
copied = results (copy_subsets 0 service sources targets)

copy_subsets-defined_example :
    is_some (copy_subsets 0 service sources targets) ≡ all_known service.ports sources
copy_subsets-defined_example = copy_subsets-defined 0 service sources targets

copy_subsets-Resolved_example : Resolved service sources targets copied
unfolding copy_subsets upsert_endpoint_port service_port_for_name
copy_subsets-Resolved_example = copy_subsets-Resolved 0 service sources targets refl
