-- ===== src/Tests/Datasources.antt =====
-- A datasource through its life, with a Grafana that accepts everything.
use grafana_tools.Base.{
  String, List, eqb, arith, ℕ, true, false, Option, none, some, [], ◌∷◌, ◌≡◌, refl, ◌⊎◌,
}
use grafana_tools.Kube.{failed}
use grafana_tools.Kube.Exec.{Answer, yields, fails}
use grafana_tools.Datasource.{
  Datasource, Env, process, finalizer, apply, reconcile, unset, current, phase_failed,
}
use grafana_tools.Datasource.Rounds.{Library, World, round, rounds}
use grafana_tools.Datasource.Rounds.Rest.{rounds-settled, refusal-IsFinal}
use grafana_tools.Datasource.Lifecycle.{
  ReleasesSafely, release_safe, creations, updates, creates_once,
}

abbrev fresh : Datasource
fresh = record {
  key = record { namespace = "demo"; name = "ds" };
  generation = 2;
  is_deleted = false;
  finalizers = finalizer ∷ [];
  spec = record {
    org_id = 1;
    name = "prom";
    type = "prometheus";
    access = "proxy";
    url = "http://prom";
    is_default = true;
  };
  phase = unset;
  reason = "";
  observed_generation = 1;
  conditions = [];
  datasource_id = none;
}

abbrev known : Datasource
known = record fresh { datasource_id = some 7 }

abbrev cluster : Datasource → Answer (Option ℕ) → Env
cluster d reply = record {
  get = λ t. yields d;
  patch_status = λ t x f. yields (f x);
  create_or_patch = λ t x f. yields (f x);
  connect = λ t x. yields tt;
  create = λ t r. reply;
  update = λ t r. yields tt;
  delete = λ t n. yields tt;
  already_reconciled = λ x. false;
  set_condition = λ cs c. c ∷ cs;
  with_finalizer = λ fs f. f ∷ fs;
  without_finalizer = λ fs f. [];
}

release_safe_example :
    ReleasesSafely (reconcile (cluster (record known { is_deleted = true }) (yields none)) []).1
release_safe_example = release_safe (cluster (record known { is_deleted = true }) (yields none))

abbrev processed : Env → Datasource → Datasource
processed env d = apply env process d

creates_once_example :
    let env = cluster known (yields (some 9)) in
    (creations (reconcile env []).1 ≡ [])
    × ((updates (reconcile env []).1 ≡ [])
        ⊎ (updates (reconcile env []).1 ≡ record { id = 7; spec = known.spec } ∷ []))
unfolding apply
creates_once_example =
    creates_once (cluster known (yields (some 9))) known
      (processed (cluster known (yields (some 9))) known) refl refl refl refl refl 7 refl

abbrev refusing : Env
refusing = cluster fresh (fails (failed "conflict"))

abbrev accepting : Env
accepting = cluster fresh (yields (some 9))

abbrev library : Library
library = record {
  already_reconciled = λ d. eqb d.observed_generation d.generation;
  set_condition = λ cs c. c ∷ cs;
  with_finalizer = λ fs f. f ∷ [];
  without_finalizer = λ fs f. [];
}

abbrev world : List String → World
world finalizers = record {
  object = record fresh { finalizers = finalizers };
  remote = [];
  next = 5;
}

rounds-settled_example : rounds library 3 (world []) ≡ record {
  object = record fresh {
    phase = current;
    reason = "Successfully created Grafana Datasource";
    observed_generation = 2;
    datasource_id = some 5;
  };
  remote = (5, fresh.spec) ∷ [];
  next = 6;
}
rounds-settled_example =
    rounds-settled library (λ d. refl) (λ fs. ground arith) 1 (world []) refl refl refl refl

refusal-IsFinal_example :
    let r = rounds library 4 (round library (some (failed "conflict")) (world (finalizer ∷ []))) in
    (r.object.phase ≡ phase_failed) × (r.remote ≡ [])
refusal-IsFinal_example =
    refusal-IsFinal library (λ d. refl) (λ fs. ground arith) (failed "conflict") 4
      (world (finalizer ∷ [])) refl refl refl
