-- ===== src/ClientOrg/Reconcile/Objects.antt =====
-- The calls of the reconciler of client namespaces, and what answers them.
use grafana_tools.Base.{String, Bool, Option, List}
use grafana_tools.Kube.{Error}
use grafana_tools.Kube.Exec.{Answer}
use grafana_tools.ClientOrg.{Keys, Namespace}
use grafana_tools.ClientOrg.Copies.{Board, PersesBoard, Source, Write}
use grafana_tools.Hub.{Backend}
use grafana_tools.ClientOrg.Backends.{register_backends}
use grafana_tools.ClientOrg.Backends
use grafana_tools.ClientOrg.Config.{World}
use grafana_tools.Prometheus.{Config}

-- The functions given to `Patch`, by name.
pub data Change : Type 0 where
  release add_finalizer mark_cleaned_up : Change

-- A call that changes something, with its outcome. `R` is what a backend answers to a registration, `G`
-- and `P` stand for the rest of a board of Grafana and of Perses. The calls of `registerBackends` are
-- those of Backends.
pub data Event (R G P : Type 0) : Type 0 where
  unregistered : Backend → Answer (Unit {0}) → Event R G P
  deleted_all : Backend → String → Answer (Unit {0}) → Event R G P
  patched : Change → Answer (Unit {0}) → Event R G P
  created : String → Answer Namespace → Event R G P
  bound : String → String → Answer (Unit {0}) → Event R G P
  backend : Backends.Event R → Event R G P
  copied_grafana : Write (Board G) → Event R G P
  copied_perses : Write (PersesBoard P) → Event R G P

-- The answers of the cluster, of the hub, of the detector and of the libraries. `fresh` is the answer
-- of the API server, `get` that of the cache; `backends` has the answers to a registration with a
-- configuration.
pub record Env (R G P : Type 0) : Type 0 where
  pub keys : Keys
  pub get : List (Event R G P) → Answer Namespace
  pub fresh : List (Event R G P) → Answer Namespace
  pub get_monitoring : List (Event R G P) → String → Answer Namespace
  pub create : List (Event R G P) → String → Answer Namespace
  pub patch : List (Event R G P) → Namespace → (Namespace → Namespace) → Answer (Unit {0})
  pub bind : List (Event R G P) → String → String → Answer (Unit {0})
  pub delete_all : List (Event R G P) → Backend → String → Answer (Unit {0})
  pub has_client : Bool
  pub unregister : List (Event R G P) → Backend → Answer (Unit {0})
  pub ready : List (Event R G P) → Answer Bool
  pub rancher_managed : List (Event R G P) → Bool
  pub federated : List (Event R G P) → Bool
  pub world : List (Event R G P) → World
  pub cluster_state : List (Event R G P) → Answer String
  pub backends : Config → List (Event R G P) → Backends.Env R
  pub grafana_dashboards : List (Event R G P) → Answer (List (Source (Board G)))
  pub perses_dashboards : List (Event R G P) → Answer (List (Source (PersesBoard P)))
  pub put_grafana : List (Event R G P) → Write (Board G) → Option Error
  pub put_perses : List (Event R G P) → Write (PersesBoard P) → Option Error
  pub client_title : String → String
  pub hash_grafana : Source (Board G) → String
  pub hash_perses : Source (PersesBoard P) → String
  pub with_finalizer : List String → String → List String
  pub without_finalizer : List String → String → List String
  pub aggregate : Error → List Error → Error
