-- ===== src/Grafana/Builder.antt =====
-- pkg/grafana/builder.go: the client of the default Grafana, made again when its settings change. The
-- mutex makes each method one step.
pub mod Reach
pub mod Never
pub mod Follows
use grafana_tools.Base.{
  String, ℕ, Bool, true, false, Option, none, some, ◌==◌, eqb, suc, Dict, if◌then◌else◌,
}
use grafana_tools.Kube.{ObjectKey, Error, Reply, done, ignore_not_found}
use grafana_tools.Kube.Exec.{Answer, yields, fails, Outcome, ok, err, panic}
use grafana_tools.Grafana.Client.{App, Config, Env, config_with, get_grafana_config, dial}

-- A pointer to a configuration: where it stands, and what it points to.
pub record Pointer : Type 0 where
  pub address : ℕ
  pub config : Config

-- `ClientBuilder`, with the address that the next configuration is given. `cfg` is the configuration
-- that the last client was made for.
pub record Builder (Client : Type 0) : Type 0 where
  pub flags : Option Pointer
  pub existing : ℕ
  pub app_cfg : Option Pointer
  pub cfg : Option Pointer
  pub client : Option Client
  pub next : ℕ

-- `NewBuilder`
unfoldable pub new_builder : {Client : Type 0} → Option Config → Builder Client
new_builder flags = record {
  flags = elim flags [ none ↦ none | some c ↦ some (record { address = 0; config = c }) ];
  existing = 0;
  app_cfg = none;
  cfg = none;
  client = none;
  next = 1;
}

-- `build`: the name of the secret is read before the secret is found to be there.
unfoldable pub build : (ObjectKey → Answer (Dict String)) → App → Outcome Config
unfolding get_grafana_config
build get app = elim app.secret [
  | none ↦ panic "nil dereference of the secret"
  | some name ↦ elim (config_with get_grafana_config get app (some name)) [
    | fails e ↦ err e
    | yields c ↦ ok c
  ]
]

abbrev pub with_address : Option Pointer → Option Pointer
with_address none = none
with_address (some p) = if p.config.addr == "" then none else some p

-- The configuration in use: that of the AppBinding, or else of the flags.
abbrev pub preferred : Option Pointer → Option Pointer → Option Pointer
preferred (some p) flags = some p
preferred none flags = with_address flags

abbrev pub is_same : Option Pointer → Pointer → Bool
is_same none p = false
is_same (some q) p = eqb q.address p.address

module _ {Client : Type 0} where
  unfoldable pub unset : Builder Client → Builder Client
  unset b = record b { app_cfg = none; existing = 0 }

  abbrev pub held : Config → ℕ → Builder Client → Builder Client
  held c h b = record b {
    app_cfg = some (record { address = b.next; config = c });
    existing = h;
    next = suc b.next;
  }

  -- The end of `Reconcile`; the hash is that of the configuration as JSON.
  abbrev pub settle :
      (Config → ℕ) → Outcome Config → Builder Client → Builder Client × Outcome Reply
  settle hash (panic m) b = (b, panic m)
  settle hash (err e) b = (unset b, err e)
  settle hash (ok c) b = (if eqb b.existing (hash c) then b else held c (hash c) b, ok done)

  unfoldable pub reconcile :
      (Config → ℕ)
      → (ObjectKey → Answer (Dict String))
      → Answer App
      → Builder Client
      → Builder Client × Outcome Reply
  unfolding unset build ignore_not_found
  reconcile hash get (fails e) b =
      (unset b, ok (record { requeue_after = 0; error = ignore_not_found (some e) }))
  reconcile hash get (yields app) b =
      if app.is_deleted then (unset b, ok done) else settle hash (build get app) b

  abbrev pub current : Builder Client → Option Pointer
  current b = preferred b.app_cfg b.flags

  -- The address and the credentials are those of `cfg`, the configuration before.
  abbrev pub redial :
      Env Client
      → Pointer
      → Option Pointer
      → Builder Client
      → Builder Client × Outcome (Option Client)
  redial env p none b = (b, panic "nil dereference of the configuration")
  redial env p (some last) b = elim (dial env none p.config.tls last.config.addr last.config.auth) [
    | fails e ↦ (b, err e)
    | yields c ↦ (record b { cfg = some p; client = some c }, ok (some c))
  ]

  abbrev pub client_for :
      Env Client → Option Pointer → Builder Client → Builder Client × Outcome (Option Client)
  client_for env none b = (b, ok none)
  client_for env (some p) b = if is_same b.cfg p then (b, ok b.client) else redial env p b.cfg b

  unfoldable pub get_grafana_client :
      Env Client → Builder Client → Builder Client × Outcome (Option Client)
  unfolding dial
  get_grafana_client env b = client_for env (current b) b
