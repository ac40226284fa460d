-- ===== src/Prometheus/Project/Found.antt =====
-- What the project, the scope of the preset and the context of a Prometheus are.
use grafana_tools.Base.{
  String, Bool, true, false, List, [], ◌≡◌, ◌≢◌, ◌⊎◌, inl, inr, refl, arith, subst, ap, sym, Dict,
  not, ◌&&◌, ◌==◌, index, concat, some, Option, eq_iff, Bool-cases, Option-cases,
}
use grafana_tools.Kube.{Error, key_eq}
use grafana_tools.Kube.Exec.{
  Answer, yields, Outcome, err, panic, ok, ◌>>=◌, branch, pure, fail, continue, ask, Exec,
}
use grafana_tools.Detector.Prometheus.{Detector, federated}
use grafana_tools.Prometheus.{Prometheus, Scope, cluster_scope, project_scope, Context, Event, Env}
use grafana_tools.Prometheus.Project.{
  project_namespace, system_project, own_project, project_of, scope_of, context_of,
}

-- The project of a Prometheus: the system's for the one of Rancher's monitoring, else the one that its
-- namespace selector names.
abbrev pub IsProject : Env → Prometheus → List Event → String → Type 0
IsProject env p t id =
    ((key_eq p.key env.names.rancher_monitoring ≡ true) × (env.system_project t ≡ yields (some id)))
    ⊎ ((key_eq p.key env.names.rancher_monitoring ≡ false)
        × (labels : Dict String) × (p.namespace_selector ≡ some labels)
        × (index labels env.texts.helm_project_key ≡ id)
        × (id ≢ ""))

-- Where the preset lies, by whether Prometheus is federated and whether this is the default one.
abbrev pub IsScope : Env → Prometheus → (federated default : Bool) → Scope → Type 0
IsScope env p true false s =
    (id : String) × IsProject env p [] id × (s ≡ project_scope (concat "cattle-project-" id))
IsScope env p _ _ s = s ≡ cluster_scope

-- What the hub is told: the project is left out for the default Prometheus.
abbrev pub IsContext : Env → Prometheus → Bool → List Event → Context → Type 0
IsContext env p true t c = (c.is_default ≡ true) × (c.project_id ≡ "")
IsContext env p false t c = (c.is_default ≡ false) × IsProject env p t c.project_id

module _ {E A B : Type 0} where
  bound_pure :
      (m : Exec E A) (g : A → B) (t : List E) (b : B)
      → ((m >>= λ a. pure (g a)) t).0 ≡ ok b
      → (a : A) × ((m t).0 ≡ ok a) × (b ≡ g a)
  unfolding ◌>>=◌ continue fail pure
  bound_pure m g t b e = bound (m t).0 (m t).1 e
    where
      bound :
          (o : Outcome A) (t' : List E)
          → (continue o fail (λ a. pure (g a)) t').0 ≡ ok b
          → (a : A) × (o ≡ ok a) × (b ≡ g a)
      bound (ok a) t' h = (a, refl, ground (arith, h))
      bound (err x) t' h = ground (arith, h)
      bound (panic m) t' h = ground (arith, h)

module _ (env : Env) (d : Detector) (p : Prometheus) (default : Bool) where
  system_known :
      (a : Answer (Option String)) (t : List Event) (id : String)
      → ((ask (λ (u : List Event). a) >>= system_project env p) t).0 ≡ ok id
      → a ≡ yields (some id)
  unfolding ◌>>=◌
  system_known a t id e = ground (arith, e)

  chosen :
      (c : Bool) (k : String) (x : Error) (t : List Event) (id : String)
      → (branch c (fail x) (pure k) t).0 ≡ ok id
      → (c ≡ false) × (k ≡ id)
  unfolding branch fail pure
  chosen true k x t id e = ground (arith, e)
  chosen false k x t id e = (refl, ground (arith, e))

  own_known :
      (labels : Dict String) (t : List Event) (id : String)
      → (own_project env p (some labels) t).0 ≡ ok id
      → (index labels env.texts.helm_project_key ≡ id) × (id ≢ "")
  own_known labels t id e =
      let k = index labels env.texts.helm_project_key in
      let (filled, same) = chosen (k == "") k _ t id e in
      (same, λ empty. ground (arith, filled, same, empty, eq_iff k ""))

  project_of-IsProject :
      (t : List Event) (id : String) → (project_of env p t).0 ≡ ok id → IsProject env p t id
  unfolding project_of ◌>>=◌
  project_of-IsProject t id e = elim (Bool-cases (key_eq p.key env.names.rancher_monitoring)) [
    | inl same ↦ inl (same, system_known (env.system_project t) t id (ground (arith, e, same)))
    | inr other ↦ elim (Option-cases p.namespace_selector) [
      | inl none_there ↦ ground (arith, e, other, none_there)
      | inr (labels, there) ↦
          let known = own_known labels t id (ground (arith, e, other, there)) in
          inr (other, labels, there, known.0, known.1)
    ]
  ]

  pub scope_of-IsScope :
      (s : Scope) → (scope_of env d p default []).0 ≡ ok s → IsScope env p (federated d) default s
  unfolding scope_of ◌>>=◌
  scope_of-IsScope s e = scoped (federated d) default e
    where
      scoped :
          (f default' : Bool)
          → (branch
              (f && not default')
              (do id ← project_of env p; pure (project_scope (project_namespace id)))
              (pure cluster_scope)
              []).0
            ≡ ok s
          → IsScope env p f default' s
      scoped true false h =
          let (id, known, at) = bound_pure (project_of env p) _ [] s h in
          (id, project_of-IsProject [] id known, at)
      scoped true true h = ground (arith, h)
      scoped false default' h = ground (arith, h)

  abbrev not_default : String → Context
  not_default id = record { project_id = id; is_default = false }

  pub context_of-IsContext :
      (t : List Event) (c : Context)
      → (context_of env p default t).0 ≡ ok c
      → IsContext env p default t c
  unfolding context_of ◌>>=◌
  context_of-IsContext t c e = told default e
    where
      told :
          (default' : Bool)
          → (branch default'
              (pure (record { project_id = ""; is_default = default' }))
              (do id ← project_of env p; pure (record { project_id = id; is_default = default' }))
              t).0
            ≡ ok c
          → IsContext env p default' t c
      told true h = ground (arith, h)
      told false h =
          let (id, known, at) = bound_pure (project_of env p) not_default t c h in
          (
            ap (λ (x : Context). x.is_default) at,
            subst (IsProject env p t) (sym (ap (λ (x : Context). x.project_id) at))
                (project_of-IsProject t id known),
          )
