-- ===== src/Prometheus/Setup/Registered.antt =====
-- What a run that registers a Prometheus has done, by how it ends.
use grafana_tools.Base.{Bool, true, false, List, [], ◌∷◌, ◌≡◌, ◌⊎◌}
use grafana_tools.Kube.Exec.{Answer, yields, fails, Outcome, ok, err, panic}
use grafana_tools.Hub.{grafana, perses}
use grafana_tools.Prometheus.{
  RoleBinding, Config, Context, GrafanaResponse, PersesResponse, Event, registered_grafana,
  registered_perses, wrote_prometheus_binding, wrote_binding, wrote_secret, marked,
}

-- Both registrations were made, for one context and with the configuration; for the default Prometheus
-- the AppBindings were written after each, and the secrets tried with the tokens of the answers.
abbrev pub Registered : Bool → Config → List Event → Type 0
Registered false config t =
    (ctx : Context) × (rg : GrafanaResponse) × (rp : PersesResponse) × (t
      ≡ registered_perses ctx config (yields rp) ∷ registered_grafana ctx config (yields rg) ∷ [])
Registered true config t =
    (ctx : Context) × (rg : GrafanaResponse) × (rp : PersesResponse) × (ag ap : Answer (Unit {0}))
    × (t
        ≡ wrote_secret perses rp.bearer_token ap
          ∷ wrote_binding perses (yields tt)
          ∷ wrote_prometheus_binding (yields tt)
          ∷ registered_perses ctx config (yields rp)
          ∷ wrote_secret grafana rg.bearer_token ag
          ∷ wrote_binding grafana (yields tt)
          ∷ wrote_prometheus_binding (yields tt)
          ∷ registered_grafana ctx config (yields rg)
          ∷ [])

abbrev pub is_unmarked : List Event → Bool
is_unmarked [] = true
is_unmarked (marked r ∷ t) = false
is_unmarked (_ ∷ t) = is_unmarked t

-- A run that succeeds has set the mark by its last call, after everything else; one that fails has not
-- tried to, or has failed at that.
unfoldable pub RegistersAll : Bool → Config → Outcome (Unit {0}) × List Event → Type 0
RegistersAll is_default config (ok u, t) =
    (rb : RoleBinding) × (t0 : List Event) × (t ≡ marked (yields rb) ∷ t0)
    × Registered is_default config t0
RegistersAll is_default config (err e, t) =
    (is_unmarked t ≡ true)
    ⊎ ((t0 : List Event) × (t ≡ marked (fails e) ∷ t0) × Registered is_default config t0)
RegistersAll is_default config (panic m, t) = is_unmarked t ≡ true

-- A run that finds an old mark replaces it; one that finds nothing due makes no call; any other
-- registers.
abbrev pub FinishesBy : Bool → Bool → Bool → Config → Outcome (Unit {0}) × List Event → Type 0
FinishesBy true due is_default config (ok u, marked (yields rb) ∷ []) = Unit
FinishesBy true due is_default config (err e, marked (fails e') ∷ []) = e ≡ e'
FinishesBy true due is_default config _ = ⊥
FinishesBy false false is_default config r = r ≡ (ok tt, [])
FinishesBy false true is_default config r = RegistersAll is_default config r
