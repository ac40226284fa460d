-- ===== src/Prometheus/Reconcile/Deletion.antt =====
-- A Prometheus that is deleted.
use grafana_tools.Base.{
  ◌∙◌, String, Bool, true, false, List, [], ◌∷◌, ◌≡◌, ◌⊎◌, refl, arith, subst, sym,
}
use grafana_tools.Kube.{Error, Reply, done, not_found}
use grafana_tools.Kube.Exec.{
  yields, fails, Outcome, err, panic, ok, ◌>>=◌, ◌>>◌, branch, call, pure, fail, continue, Exec,
}
use grafana_tools.Detector.Prometheus.{Detector, federated}
use grafana_tools.Hub.{Backend, grafana, perses}
use grafana_tools.Prometheus.{
  Prometheus, Scope, Context, Event, patched, unregistered, deleted_preset, remove_finalizer, Env,
}
use grafana_tools.Kube.Exec.Rules.{reading, quiet_reading}
use grafana_tools.Kube.Exec.Steps.{bind-bind, call-bind}
use grafana_tools.Prometheus.Project.{project_of, scope_of, context_of, cleanup_preset}
use grafana_tools.Prometheus.Project.Found.{
  IsScope, IsContext, scope_of-IsScope, context_of-IsContext,
}
use grafana_tools.Prometheus.Project.Quiet.{scope_of-IsQuiet, context_of-IsQuiet}
use grafana_tools.Prometheus.Reconcile.{reconcile_deleted, unregister, apply}

-- The last call took the finalizer away; before it both backends of the hub were told of the same
-- project, where there is a hub, and before that the preset was deleted.
abbrev pub Forgets :
    Bool → (Scope → Type 0) → (List Event → Context → Type 0) → Outcome Reply × List Event → Type 0
Forgets has_client Scoped Told
      (
        o,
        patched remove_finalizer r
            ∷ unregistered perses c (yields u)
            ∷ unregistered grafana c' (yields u')
            ∷ deleted_preset s (yields u'')
            ∷ [],
      ) =
    (has_client ≡ true) × (c ≡ c') × Scoped s × Told (deleted_preset s (yields u'') ∷ []) c
Forgets has_client Scoped Told (o, patched remove_finalizer r ∷ deleted_preset s (yields u) ∷ []) =
    (has_client ≡ false) × Scoped s
Forgets has_client Scoped Told (o, patched c r ∷ t) = ⊥
Forgets has_client Scoped Told (ok reply, t) = ⊥
Forgets has_client Scoped Told (o, t) = Unit

abbrev pub ForgottenFirst : Env → Detector → Prometheus → Bool → Outcome Reply × List Event → Type 0
ForgottenFirst env d p default r =
    Forgets env.has_client (IsScope env p (federated d) default) (IsContext env p default) r

-- Before the hub is told anything, the preset was deleted, in the scope that was found.
unfoldable DeletedBefore : (Scope → Type 0) → Outcome Reply × List Event → Type 0
DeletedBefore S (o, unregistered b c (fails e) ∷ t) =
    (s : Scope) × S s
    × ((t ≡ deleted_preset s (yields tt) ∷ [])
        ⊎ (t ≡ unregistered grafana c (yields tt) ∷ deleted_preset s (yields tt) ∷ []))
DeletedBefore S (o, t) = Unit

module _ {E A B : Type 0} where
  reading_continue :
      (P : Outcome B × List E → Type 0) (o r : Outcome A) (f : A → Exec E B) (t : List E)
      → o ≡ r
      → ((e : Error) → P (err e, t))
      → ((why : String) → P (panic why, t))
      → ((a : A) → o ≡ ok a → P (f a t))
      → P (continue r fail f t)
  unfolding continue fail
  reading_continue P o (ok a) f t same pe pp pf = pf a same
  reading_continue P o (err e) f t same pe pp pf = pe e
  reading_continue P o (panic m) f t same pe pp pf = pp m

  reading-bind :
      (P : Outcome B × List E → Type 0) (o : List E → Outcome A) (f : A → Exec E B) (t : List E)
      → ((e : Error) → P (err e, t))
      → ((why : String) → P (panic why, t))
      → ((a : A) → o t ≡ ok a → P (f a t))
      → P ((reading o >>= f) t)
  unfolding ◌>>=◌
  reading-bind P o f t pe pp pf = reading_continue P (o t) (o t) f t refl pe pp pf

module _ (env : Env) (d : Detector) (p : Prometheus) (default : Bool) where
  -- The handler over what it finds out of the project.
  abbrev retire : Exec Event Scope → Exec Event Context → Exec Event Reply
  retire scope context = do
    do s ← scope; call (λ t. env.delete_preset t s) (deleted_preset s)
    ctx ← context
    branch env.has_client (do unregister env grafana ctx; unregister env perses ctx) (pure tt)
    call (λ t. env.patch t p (apply env remove_finalizer)) (patched remove_finalizer)
    pure done

  module _ (S : Scope → Type 0) (T : List Event → Context → Type 0) (s : List Event → Outcome Scope)
      (c : List Event → Outcome Context) (scoped : (x : Scope) → s [] ≡ ok x → S x)
      (told : (t : List Event) (x : Context) → c t ≡ ok x → T t x) where
    unfoldable Ends : Outcome Reply × List Event → Type 0
    Ends = Forgets env.has_client S T

    finished :
        (x : Scope) (u : Unit {0}) (ctx : Context)
        → S x
        → T (deleted_preset x (yields u) ∷ []) ctx
        → Ends (
            (branch env.has_client
                  (do unregister env grafana ctx; unregister env perses ctx)
                  (pure tt)
                >> (call
                      (λ t. env.patch t p (apply env remove_finalizer))
                      (patched remove_finalizer)
                    >> pure done))
              (deleted_preset x (yields u) ∷ []))
    unfolding ◌>>=◌ unregister Ends
    finished x u ctx sx tc = ground (arith, sx, tc)

    failed_early : (e : Error) → Ends (err e, [])
    unfolding Ends
    failed_early e = tt

    panicked_early : (m : String) → Ends (panic m, [])
    unfolding Ends
    panicked_early m = tt

    not_deleted : (x : Scope) (e : Error) → Ends (err e, deleted_preset x (fails e) ∷ [])
    unfolding Ends
    not_deleted x e = tt

    no_context :
        (x : Scope) (u : Unit {0}) (e : Error) → Ends (err e, deleted_preset x (yields u) ∷ [])
    unfolding Ends
    no_context x u e = tt

    context_panicked :
        (x : Scope) (u : Unit {0}) (m : String) → Ends (panic m, deleted_preset x (yields u) ∷ [])
    unfolding Ends
    context_panicked x u m = tt

    retire-Ends : Ends (retire (reading s) (reading c) [])
    retire-Ends = bind-bind Ends (reading s) _ _ [] (
        reading-bind Ends s _ [] failed_early panicked_early λ x at.
          call-bind Ends (λ t. env.delete_preset t x) (deleted_preset x) _ []
            (λ e h. not_deleted x e)
            λ u h.
              reading-bind Ends c _ _ (no_context x u) (context_panicked x u)
                λ ctx known. finished x u ctx (scoped x at) (told _ ctx known))

    retire-Forgets : Forgets env.has_client S T (retire (reading s) (reading c) [])
    unfolding Ends
    retire-Forgets = retire-Ends

  retire-DeletedBefore :
      (s : List Event → Outcome Scope) (c : List Event → Outcome Context)
      → DeletedBefore (λ x. s [] ≡ ok x) (retire (reading s) (reading c) [])
  unfolding ◌>>=◌ unregister DeletedBefore
  retire-DeletedBefore s c = ground arith

  scope_reading : scope_of env d p default ≡ reading (λ t. (scope_of env d p default t).0)
  scope_reading = quiet_reading (scope_of env d p default) (scope_of-IsQuiet env p d default)

  context_reading : context_of env p default ≡ reading (λ t. (context_of env p default t).0)
  context_reading = quiet_reading (context_of env p default) (context_of-IsQuiet env p default)

  -- Whatever the environment answers, a deleted Prometheus loses its finalizer only as the last call of
  -- the run, after its preset was deleted (the one in the namespace of its project where it is
  -- federated and not the default one, else the one of the cluster) and, where there is a hub, both
  -- backends were unregistered for that project (or for none, for the default one); a run that ends
  -- well has come to that call.
  pub deletion-ForgottenFirst :
      ForgottenFirst env d p default (reconcile_deleted env d p default [])
  unfolding reconcile_deleted cleanup_preset
  deletion-ForgottenFirst =
      subst (λ m. ForgottenFirst env d p default (retire m (context_of env p default) []))
        (sym scope_reading)
        (subst
          (λ m.
            ForgottenFirst env d p default
              (retire (reading (λ t. (scope_of env d p default t).0)) m []))
          (sym context_reading)
          (retire-Forgets _ _ _ _ (scope_of-IsScope env d p default)
            (context_of-IsContext env d p default)))

-- The same world, but for the preset, which is gone.
abbrev pub without_preset : Env → String → Env
without_preset env why = record env { delete_preset = λ t s. fails (not_found why) }

with_parts : {A B : Type 0} (r : A × B) {a : A} {b : B} → r.0 ≡ a → r.1 ≡ b → r ≡ (a, b)
with_parts (x, y) e f = rw (e, f) refl

module _ (env : Env) (d : Detector) (p : Prometheus) (default : Bool) where
  same_scope :
      (why : String)
      → scope_of (without_preset env why) d p default [] ≡ scope_of env d p default []
  unfolding scope_of project_of
  same_scope why = refl

  found_again :
      (why : String) (s : Scope)
      → (scope_of env d p default []).0 ≡ ok s
      → scope_of (without_preset env why) d p default [] ≡ (ok s, [])
  found_again why s e =
      same_scope why
      ∙ with_parts (scope_of env d p default []) e (scope_of-IsQuiet env p d default [])

  stuck_at :
      (why : String) (s : Scope)
      → scope_of (without_preset env why) d p default [] ≡ (ok s, [])
      → reconcile_deleted (without_preset env why) d p default []
        ≡ (err (not_found why), deleted_preset s (fails (not_found why)) ∷ [])
  unfolding reconcile_deleted cleanup_preset ◌>>=◌
  stuck_at why s e = rw e refl

  after_failure :
      (r : Outcome Reply × List Event) (S : Scope → Type 0) (o : Outcome Reply) (b : Backend)
      (c : Context) (e : Error) (t : List Event)
      → DeletedBefore S r
      → r ≡ (o, unregistered b c (fails e) ∷ t)
      → (s : Scope) × S s
        × ((t ≡ deleted_preset s (yields tt) ∷ [])
            ⊎ (t ≡ unregistered grafana c (yields tt) ∷ deleted_preset s (yields tt) ∷ []))
  unfolding DeletedBefore
  after_failure r S o b c e t h same = subst (DeletedBefore S) same h

  abbrev Found : Scope → Type 0
  Found x = (scope_of env d p default []).0 ≡ ok x

  deleted_before : DeletedBefore Found (reconcile_deleted env d p default [])
  unfolding reconcile_deleted cleanup_preset
  deleted_before =
      subst (λ m. DeletedBefore Found (retire env d p default m (context_of env p default) []))
        (sym (scope_reading env d p default))
        (subst
          (λ m.
            DeletedBefore Found
              (retire env d p default (reading (λ t. (scope_of env d p default t).0)) m []))
          (sym (context_reading env d p default)) (retire-DeletedBefore env d p default _ _))

  -- When a run for a deleted Prometheus fails at the hub, it has deleted the preset before; and the next
  -- run, in the same world but for that preset, which is gone, fails with the cluster's NotFound at
  -- deleting it once more, and comes neither to the hub nor to the finalizer.
  pub deletion-IsStuck :
      (o : Outcome Reply) (b : Backend) (c : Context) (e : Error) (t : List Event) (why : String)
      → reconcile_deleted env d p default [] ≡ (o, unregistered b c (fails e) ∷ t)
      → (s : Scope) × ((t ≡ deleted_preset s (yields tt) ∷ [])
          ⊎ (t ≡ unregistered grafana c (yields tt) ∷ deleted_preset s (yields tt) ∷ []))
        × (reconcile_deleted (without_preset env why) d p default []
            ≡ (err (not_found why), deleted_preset s (fails (not_found why)) ∷ []))
  deletion-IsStuck o b c e t why failed =
      let (s, found, before) =
        after_failure (reconcile_deleted env d p default []) _ o b c e t deleted_before failed in
      (s, before, stuck_at why s (found_again why s found))
