-- ===== src/Datasource/Rounds.antt =====
-- Reconciles of one datasource, one after another, in a cluster that takes every patch. What Grafana does
-- with a request to make or change a datasource is given for each round.
pub mod Rest
use grafana_tools.Base.{
  String, ℕ, Bool, Option, none, some, List, [], ◌∷◌, zero, suc, eqb, if◌then◌else◌,
}
use grafana_tools.Kube.{Error}
use grafana_tools.Kube.Exec.{Answer, yields, fails}
use grafana_tools.Datasource.{
  DatasourceSpec, Datasource, Condition, Remote, Event, patched_status, patched, created_remote,
  updated_remote, deleted_remote, Env, reconcile,
}

-- The object in the cluster, and the datasources that Grafana holds with the next id that it gives.
pub record World : Type 0 where
  pub object : Datasource
  pub remote : List (ℕ × DatasourceSpec)
  pub next : ℕ

-- The libraries: `MustAlreadyReconciled`, `SetCondition`, and the finalizers of controllerutil.
pub record Library : Type 0 where
  pub already_reconciled : Datasource → Bool
  pub set_condition : List Condition → Condition → List Condition
  pub with_finalizer : List String → String → List String
  pub without_finalizer : List String → String → List String

abbrev pub accepts : {A : Type 0} → Option Error → A → Answer A
accepts none a = yields a
accepts (some e) a = fails e

abbrev pub replaced : ℕ → DatasourceSpec → List (ℕ × DatasourceSpec) → List (ℕ × DatasourceSpec)
replaced id spec [] = []
replaced id spec ((n, s) ∷ rest) =
    if eqb n id then (id, spec) ∷ rest else (n, s) ∷ replaced id spec rest

abbrev pub removed : ℕ → List (ℕ × DatasourceSpec) → List (ℕ × DatasourceSpec)
removed id [] = []
removed id ((n, s) ∷ rest) = if eqb n id then rest else (n, s) ∷ removed id rest

-- What a call leaves.
abbrev pub happen : Event → World → World
happen (patched_status c (yields d)) w = record w { object = d }
happen (patched c (yields d)) w = record w { object = d }
happen (created_remote r (yields (some id))) w = record w {
  remote = (id, r.spec) ∷ w.remote;
  next = suc w.next;
}
happen (updated_remote r (yields u)) w = record w { remote = replaced r.id r.spec w.remote }
happen (deleted_remote n (yields u)) w = record w { remote = removed n w.remote }
happen _ w = w

abbrev pub after : List Event → World → World
after [] w = w
after (e ∷ t) w = happen e (after t w)

module _ (lib : Library) where
  abbrev pub env_of : Option Error → World → Env
  env_of refusal w = record {
    get = λ t. yields w.object;
    patch_status = λ t d f. yields (f d);
    create_or_patch = λ t d f. yields (f d);
    connect = λ t d. yields tt;
    create = λ t r. accepts refusal (some w.next);
    update = λ t r. accepts refusal tt;
    delete = λ t n. yields tt;
    already_reconciled = lib.already_reconciled;
    set_condition = lib.set_condition;
    with_finalizer = lib.with_finalizer;
    without_finalizer = lib.without_finalizer;
  }

  -- One reconcile; Grafana refuses with an error, or accepts.
  unfoldable pub round : Option Error → World → World
  unfolding reconcile
  round refusal w = after (reconcile (env_of refusal w) []).1 w

  -- Rounds in which Grafana accepts.
  abbrev pub rounds : ℕ → World → World
  rounds zero w = w
  rounds (suc n) w = rounds n (round none w)
