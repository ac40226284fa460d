-- ===== src/DashboardGroup/Links/Authorized.antt =====
-- Who gets a link from `getDashboardLink` of storage.go.
use grafana_tools.Base.{String, Bool, Option, some, none, List, [], ◌∷◌, ◌≡◌, refl, sym, arith}
use grafana_tools.Kube.Exec.{Answer, yields, fails, ok, ask, ◌>>=◌}
use grafana_tools.Kube.Exec.Ensures.{Ensures, pure-Ensures, bind-Ensures, branch-Ensures}
use grafana_tools.DashboardGroup.Objects.{
  Request, TimeRange, GrafanaDashboard, App, Resource, dashboards, apps, allow, Response, Event,
  Env,
}
use grafana_tools.DashboardGroup.Find.{required_user, find_grafana, authorize}
use grafana_tools.DashboardGroup.Links.{get_dashboard_link}

-- Both the GrafanaDashboard and the AppBinding of its Grafana are there, and open to the user.
unfoldable pub Allowed : Env → Request → Type 0
Allowed env req =
    (orgs : Option (List String)) × (d : GrafanaDashboard) × (g : App) × (env.user ≡ some orgs)
    × ((find_grafana env orgs req []).0 ≡ ok d)
    × (env.authorize dashboards d.key ≡ yields allow)
    × (env.grafana_of d ≡ yields g)
    × (env.authorize apps g.key ≡ yields allow)

asked :
    {A : Type 0} (r : Answer A) (t : List Event) (a : A)
    → (ask (λ (u : List Event). r) t).0 ≡ ok a
    → r ≡ yields a
unfolding ask
asked (yields b) t a e = ground (arith, e)
asked (fails x) t a e = ground (arith, e)

known_user :
    (u : Option (Option (List String))) (orgs : Option (List String))
    → required_user u ≡ yields orgs
    → u ≡ some orgs
known_user none orgs e = ground (arith, e)
known_user (some u) orgs e = ground (arith, e)

authorized :
    (env : Env) (r : Resource) (key : _) (t : List Event) (u : Unit {0})
    → (authorize env r key t).0 ≡ ok u
    → env.authorize r key ≡ yields allow
unfolding authorize ◌>>=◌
authorized env r key t u e = ground (arith, e)

no_event : (t : List Event) → t ≡ []
no_event [] = refl
no_event (e ∷ t) = elim e [ ]

at_start :
    (env : Env) (orgs : Option (List String)) (req : Request) (d : GrafanaDashboard)
    (t : List Event)
    → (find_grafana env orgs req t).0 ≡ ok d
    → (find_grafana env orgs req []).0 ≡ ok d
at_start env orgs req d t e = rw (sym (no_event t)) e

-- What a link comes with.
abbrev pub Answers : Env → Request → Response → Type 0
Answers env req r = (r.reference ≡ req.reference) × (r.title ≡ req.title) × Allowed env req

pub link-Ensures :
    (env : Env) (req : Request) (refresh : String) (range : Option TimeRange) (embed : Bool)
    → (t : List Event)
    → Ensures (Answers env req) (get_dashboard_link env req refresh range embed t)
unfolding get_dashboard_link Allowed
link-Ensures env req refresh range embed t = bind-Ensures _ _ _ t λ orgs t1 user.
    bind-Ensures _ _ _ t1 λ d t2 found. bind-Ensures _ _ _ t2 λ p t3 e.
      bind-Ensures _ _ _ t3 λ u t4 board. bind-Ensures _ _ _ t4 λ s t5 e.
        bind-Ensures _ _ _ t5 λ g t6 app. bind-Ensures _ _ _ t6 λ a t7 e.
          bind-Ensures _ _ _ t7 λ u' t8 granted.
            let allowed : Allowed env req = (
              orgs,
              d,
              g,
              known_user _ _ (asked _ t _ user),
              at_start env orgs req d t1 found,
              authorized _ _ _ _ _ board,
              asked _ t5 _ app,
              authorized _ _ _ _ _ granted,
            ) in
            bind-Ensures _ _ _ t8 λ ghost t9 e. bind-Ensures _ _ _ t9 λ phost t10 e.
              bind-Ensures _ _ _ t10 λ board t11 e. bind-Ensures _ _ _ t11 λ panels t12 e.
                bind-Ensures _ _ _ t12 λ config t13 e.
                  branch-Ensures _ embed _ _ t13
                    (bind-Ensures _ _ _ t13
                      λ links t14 e. pure-Ensures _ _ t14 (refl, refl, allowed))
                    (bind-Ensures _ _ _ t13 λ url t14 e. pure-Ensures _ _ t14 (refl, refl, allowed))
