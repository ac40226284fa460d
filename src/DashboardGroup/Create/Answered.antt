-- ===== src/DashboardGroup/Create/Answered.antt =====
-- What `Create` of storage.go answers.
use grafana_tools.Base.{String, Option, some, none, List, [], ◌∷◌, ◌≡◌, true, arith}
use grafana_tools.Kube.Exec.{yields, ok, panic, pure, fail, ◌>>=◌}
use grafana_tools.Kube.Exec.Ensures.{Ensures, ensured, pure-Ensures, bind-Ensures, known-Ensures}
use grafana_tools.Detector.Prometheus.{Detector, federated}
use grafana_tools.DashboardGroup.Objects.{Request, Response, Event, Env}
use grafana_tools.DashboardGroup.Find.{find_grafana}
use grafana_tools.DashboardGroup.Links.Authorized.{Answers, Allowed, link-Ensures}
use grafana_tools.DashboardGroup.Create.{
  Cluster, Group, GroupRequest, links, create, upserted, required, ready_detector, datasource,
}

-- One answer for each request, in their order, to a user who may read its GrafanaDashboard.
abbrev pub AllAnswered : Env → List Request → List Response → Type 0
AllAnswered env [] [] = Unit
AllAnswered env (r ∷ rs) (x ∷ xs) = Answers env r x × AllAnswered env rs xs
AllAnswered env _ _ = ⊥

module _ (env : Env) (c : Cluster) where
  same_request :
      (ds : String) (r : Request) (x : Response)
      → Answers env (upserted env c ds r) x
      → Answers env r x
  unfolding Allowed find_grafana
  same_request ds r x h = h

  links-AllAnswered :
      (g : GroupRequest) (ds : String) (rs : List Request) (t : List Event)
      → Ensures (AllAnswered env rs) (links env c g ds rs t)
  unfolding links
  links-AllAnswered g ds [] t = pure-Ensures _ _ t tt
  links-AllAnswered g ds (r ∷ rs) t =
      known-Ensures _ _ _ _ t (link-Ensures env _ _ _ _ t) λ x t1 hx.
        known-Ensures _ _ _ _ t1 (links-AllAnswered g ds rs t1)
          λ xs t2 hxs. pure-Ensures _ _ t2 (same_request ds r x hx, hxs)

  abbrev pub IsAnswered : Option GroupRequest → Group → Type 0
  IsAnswered request made =
      (g : GroupRequest) × (request ≡ some g) × AllAnswered env g.dashboards made.response

  required_request :
      (request : Option GroupRequest) (g : GroupRequest) (t : List Event)
      → (required env c request t).0 ≡ ok g
      → request ≡ some g
  unfolding pure fail
  required_request none g t e = ground (arith, e)
  required_request (some g') g t e = ground (arith, e)

  create-Ensures :
      (group : Group) (t : List Event) → Ensures (IsAnswered group.request) (create env c group t)
  unfolding create
  create-Ensures group t = bind-Ensures _ _ _ t λ g t1 e. bind-Ensures _ _ _ t1 λ d t2 ready.
      bind-Ensures _ _ _ t2 λ ds t3 found.
        known-Ensures _ _ _ _ t3 (links-AllAnswered g ds g.dashboards t3)
          λ rs t4 h. pure-Ensures _ _ t4 (g, required_request group.request g t e, h)

  -- A group of dashboards that is answered had a request, and has one response for each dashboard of
  -- it, in their order: of the same reference and title, and only where the user may read the
  -- GrafanaDashboard of that reference or title and the AppBinding of its Grafana, whether the response
  -- links to Grafana or to Perses.
  pub create-IsAnswered :
      (group made : Group) → (create env c group []).0 ≡ ok made → IsAnswered group.request made
  create-IsAnswered group made e =
      ensured _ (create env c group []).0 (create env c group []).1 made e (create-Ensures group [])

  -- A federated detector reads the variables of the first dashboard, so that a request without
  -- dashboards panics, as soon as the cluster's name is known.
  pub empty_request_panics :
      (group : Group) (g : GroupRequest) (d : Detector) (name : String)
      → group.request ≡ some g
      → g.dashboards ≡ []
      → c.ready ≡ yields (some d)
      → federated d ≡ true
      → c.name ≡ yields name
      → (create env c group []).0 ≡ panic "index out of range"
  unfolding create ready_detector datasource ◌>>=◌
  empty_request_panics group g d name e0 e1 e2 e3 e4 = ground (arith, e0, e1, e2, e3, e4)
