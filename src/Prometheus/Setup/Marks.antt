-- ===== src/Prometheus/Setup/Marks.antt =====
-- When a Prometheus counts as registered.
use grafana_tools.Base.{
  String, Bool, true, false, Option, List, [], ◌∷◌, ◌≡◌, refl, arith, ◌&&◌, inl, inr,
}
use grafana_tools.Kube.{ObjectKey, Error}
use grafana_tools.Kube.Exec.{
  Answer, yields, fails, Outcome, err, panic, Exec, outcome, continue, check, fail, branch, call,
  pure, ◌>>=◌,
}
use grafana_tools.Detector.{ServiceSpec}
use grafana_tools.Detector.Prometheus.{Detector}
use grafana_tools.Rancher.{RancherToken}
use grafana_tools.Hub.{Backend, grafana, perses}
use grafana_tools.Prometheus.{
  Prometheus, Service, RoleBinding, Config, Parameters, Event, wrote_prometheus_binding,
  wrote_binding, wrote_secret, marked, Env,
}
use grafana_tools.Kube.Exec.Steps.{
  quiet-bind, call-bind, ask-bind, branch-bind, pure-bind, bind-bind,
}
use grafana_tools.Prometheus.Project.Quiet.{context_of-IsQuiet}
use grafana_tools.Prometheus.Bindings.{
  create_prometheus_binding, create_backend_binding, binding_key, prometheus_binding,
}
use grafana_tools.Prometheus.Setup.Registered.{Registered, is_unmarked, RegistersAll, FinishesBy}
use grafana_tools.Prometheus.Setup.{
  publish, finish, register, mark, is_due, is_legacy, apply_markers,
}

module _ (env : Env) (d : Detector) (p : Prometheus) (is_default : Bool) (svc : Service)
    (spec : ServiceSpec) (config : Config) (state : String) (token : Option RancherToken) where
  abbrev Ends : Bool → Outcome (Unit {0}) × List Event → Type 0
  Ends default = RegistersAll default config

  failed_early :
      (default : Bool) (e : Error) (t : List Event) → is_unmarked t ≡ true → Ends default (err e, t)
  unfolding RegistersAll
  failed_early default e t h = inl h

  panicked_early :
      (default : Bool) (m : String) (t : List Event)
      → is_unmarked t ≡ true
      → Ends default (panic m, t)
  unfolding RegistersAll
  panicked_early default m t h = h

  mark_continue :
      (default : Bool) (r : Answer RoleBinding) (t : List Event)
      → Registered default config t
      → Ends default (continue (outcome r) fail (λ rb. pure tt) (marked r ∷ t))
  unfolding RegistersAll continue pure fail
  mark_continue default (yields rb) t h = (rb, t, refl, h)
  mark_continue default (fails e) t h = inr (t, refl, h)

  mark-Ends :
      (default : Bool) (t : List Event)
      → Registered default config t
      → Ends default (mark env svc state token t)
  unfolding mark ◌>>=◌
  mark-Ends default t h =
      mark_continue default (env.bind t svc.key.namespace (apply_markers env state token)) t h

  secret_tried :
      (k : Backend) (bearer : String) (r : Answer (Unit {0})) (f : Unit {0} → Exec Event (Unit {0}))
      (t : List Event)
      → Ends true (f tt t)
      → Ends true (
          continue
            (continue (outcome r) (λ e. pure tt) pure t).0
            fail
            f
            (continue (outcome r) (λ e. pure tt) pure t).1)
  unfolding continue pure
  secret_tried k bearer (yields u) f t h = h
  secret_tried k bearer (fails e) f t h = h

  secret-Ends :
      (k : Backend) (key : ObjectKey) (bearer : String) (f : Unit {0} → Exec Event (Unit {0}))
      (t : List Event)
      → ((a : Answer (Unit {0})) → Ends true (f tt (wrote_secret k bearer a ∷ t)))
      → Ends true (
          (check
                (call (λ t'. env.write_secret t' key bearer) (wrote_secret k bearer))
                (λ e. pure tt)
                pure
              >>= f)
            t)
  unfolding ◌>>=◌
  secret-Ends k key bearer f t rest =
      let r = env.write_secret t key bearer in
      secret_tried k bearer r f (wrote_secret k bearer r ∷ t) (rest r)

  binding_created :
      (k : Backend) (url : String) (params : Parameters) (bearer : String)
      (f : Unit {0} → Exec Event (Unit {0})) (t : List Event)
      → is_unmarked t ≡ true
      → ((a : Answer (Unit {0}))
          → Ends true (f tt (wrote_secret k bearer a ∷ wrote_binding k (yields tt) ∷ t)))
      → Ends true ((create_backend_binding env k p url params bearer >>= f) t)
  unfolding create_backend_binding
  binding_created k url params bearer f t h rest = bind-bind (Ends true) _ _ _ _ (
      call-bind (Ends true) _ _ _ _ (λ e h1. failed_early true e _ h)
        λ u h1. secret-Ends k _ bearer f _ rest)

  published :
      (k : Backend) (url : String) (params : Parameters) (bearer : String)
      (f : Unit {0} → Exec Event (Unit {0})) (t : List Event)
      → is_unmarked t ≡ true
      → ((a : Answer (Unit {0}))
          → Ends true (
              f tt (
                wrote_secret k bearer a
                ∷ wrote_binding k (yields tt)
                ∷ wrote_prometheus_binding (yields tt)
                ∷ t)))
      → Ends true
          ((publish env d p spec (create_backend_binding env k p url params bearer) >>= f) t)
  unfolding publish create_prometheus_binding
  published k url params bearer f t h rest = bind-bind (Ends true) _ _ _ _ (
      bind-bind (Ends true) _ _ _ _ (
        ask-bind (Ends true) _ _ _ (λ e h1. failed_early true e _ h)
          λ sref h1. bind-bind (Ends true) _ _ _ _ (
            branch-bind (Ends true) _ _ _ _ _
              (λ c.
                ask-bind (Ends true) _ _ _ (λ e h2. failed_early true e _ h)
                  λ ca h2. written sref ca)
              (λ c. pure-bind (Ends true) _ _ _ (written sref "")))))
    where
      written :
          (sref : ServiceSpec) (ca : String)
          → Ends true (
              (call
                    (λ t'.
                      env.write_binding t'
                        (binding_key p "default-prometheus")
                        (prometheus_binding d p spec sref ca))
                    wrote_prometheus_binding
                  >>= λ u. create_backend_binding env k p url params bearer >>= f)
                t)
      written sref ca =
          call-bind (Ends true) _ _ _ _ (λ e h1. failed_early true e _ h)
            λ u h1.
              binding_created k url params bearer f (wrote_prometheus_binding (yields tt) ∷ t) h
                rest

  register-Ends :
      (default : Bool) → Ends default (register env d p default svc spec config state token [])
  unfolding register
  register-Ends false =
      quiet-bind (Ends false) _ _ _ (context_of-IsQuiet env p false)
        (λ e. failed_early false e _ refl) (λ m. panicked_early false m _ refl)
        λ ctx.
          call-bind (Ends false) _ _ _ _ (λ e h. failed_early false e _ refl)
            λ rg h1.
              branch-bind (Ends false) _ _ _ _ _ (λ c. cc)
                λ c. pure-bind (Ends false) _ _ _ (
                  call-bind (Ends false) _ _ _ _ (λ e h. failed_early false e _ refl)
                    λ rp h2.
                      branch-bind (Ends false) _ _ _ _ _ (λ c. cc)
                        λ c. pure-bind (Ends false) _ _ _ (mark-Ends false _ (ctx, rg, rp, refl)))
  register-Ends true =
      quiet-bind (Ends true) _ _ _ (context_of-IsQuiet env p true) (λ e. failed_early true e _ refl)
        (λ m. panicked_early true m _ refl)
        λ ctx.
          call-bind (Ends true) _ _ _ _ (λ e h. failed_early true e _ refl)
            λ rg h1.
              branch-bind (Ends true) _ _ _ _ _
                (λ c. published grafana rg.url _ rg.bearer_token _ _ refl λ ag.
                  call-bind (Ends true) _ _ _ _ (λ e h. failed_early true e _ refl)
                    λ rp h2.
                      branch-bind (Ends true) _ _ _ _ _
                        (λ c.
                          published perses rp.url _ rp.bearer_token _ _ refl
                            λ ap. mark-Ends true _ (ctx, rg, rp, ag, ap, refl))
                        λ c. cc)
                λ c. cc

  register-RegistersAll :
      RegistersAll is_default config (register env d p is_default svc spec config state token [])
  register-RegistersAll = register-Ends is_default

  finish_by :
      (legacy due : Bool)
      → FinishesBy legacy due is_default config (
          branch legacy
            (mark env svc state token)
            (branch due (register env d p is_default svc spec config state token) (pure tt))
            [])
  unfolding branch mark ◌>>=◌
  finish_by true due = ground arith
  finish_by false true = register-RegistersAll
  finish_by false false = refl

  -- Whatever the environment answers, a Prometheus is marked as registered only as the last call of a
  -- run, after the hub has registered Grafana and then Perses with one context and the configuration
  -- given, and, for the default Prometheus, its AppBindings and those of both backends were written
  -- and their secrets tried with the tokens of the answers. A run that succeeds has set the mark, or
  -- found that no registration was due; one that finds a mark of the older form only replaces it.
  pub finish-FinishesBy :
      (rb : RoleBinding)
      → FinishesBy
          (is_legacy env rb)
          (env.has_client && is_due env rb state token)
          is_default
          config
          (finish env d p is_default svc spec config state token rb [])
  unfolding finish
  finish-FinishesBy rb = finish_by (is_legacy env rb) (env.has_client && is_due env rb state token)
