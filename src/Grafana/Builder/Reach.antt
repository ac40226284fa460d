-- ===== src/Grafana/Builder/Reach.antt =====
-- The states of the builder, over any sequence of reconciles and of calls for a client.
use grafana_tools.Base.{String, ℕ, Option, none, some, ◌≡◌, Dict}
use grafana_tools.Kube.{ObjectKey}
use grafana_tools.Kube.Exec.{Answer}
use grafana_tools.Grafana.Client.{App, Config, Env}
use grafana_tools.Grafana.Builder.{Pointer, Builder, new_builder, reconcile, get_grafana_client}

module _ {Client : Type 0} (env : Env Client) (hash : Config → ℕ) where
  -- One call of a method, whatever the cluster answers to it.
  pub data Step (b : Builder Client) : Builder Client → Type 0 where
    reconciled :
        (get : ObjectKey → Answer (Dict String)) (app : Answer App)
        → Step b (reconcile hash get app b).0
    asked : Step b (get_grafana_client env b).0

  pub data Reach (flags : Option Config) : Builder Client → Type 0 where
    start : Reach flags (new_builder flags)
    later : {b c : Builder Client} → Reach flags b → Step b c → Reach flags c

  -- No client was made so far, and the configuration held is the one of the hash held.
  pub record Inv (b : Builder Client) : Type 0 where
    pub unmade : b.cfg ≡ none
    pub hashed : (p : Pointer) → b.app_cfg ≡ some p → b.existing ≡ hash p.config
    pub cleared : b.app_cfg ≡ none → b.existing ≡ 0
