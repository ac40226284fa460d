-- ===== src/DashboardGroup/Find.antt =====
-- The dashboards a request is about, and whether the user may read them, in `getDashboardLink` and
-- `useClientOrgDashboard` of storage.go.
use grafana_tools.Base.{
  String, Option, none, some, List, [], ◌∷◌, ◌==◌, index, concat, if◌then◌else◌,
}
use grafana_tools.Kube.{
  ObjectKey, not_found, bad_request, forbidden, internal, failed, message, is_not_found,
}
use grafana_tools.Kube.Exec.{Answer, yields, fails, pure, fail, crash, ask, branch, check, ◌>>=◌}
use grafana_tools.ClientOrg.{Namespace, monitoring_namespace}
use grafana_tools.DashboardGroup.Objects.{
  Request, GrafanaStatus, GrafanaDashboard, PersesDashboard, Resource, Decision, allow, refuse, Act,
  Env, no_grafana, no_perses,
}

-- A field behind a pointer.
abbrev pub there : {A : Type 0} → Option A → Act A
there none = crash "nil dereference"
there (some a) = pure a

abbrev pub or_internal : {A : Type 0} → Answer A → Act A
or_internal r = check (ask (λ t. r)) (λ e. fail (internal (message e))) pure

abbrev pub key_text : ObjectKey → String
key_text k = concat k.namespace (concat "/" k.name)

-- The one dashboard of a list by title.
abbrev pub names_of : {A : Type 0} → (A → ObjectKey) → List A → String
names_of key [] = ""
names_of key (d ∷ []) = key_text (key d)
names_of key (d ∷ ds) = concat (key_text (key d)) (concat "," (names_of key ds))

abbrev pub the_one : {A : Type 0} → (A → ObjectKey) → String → String → List A → Act A
the_one key backend title [] = fail (
    not_found
      (concat "No dashboard with title " (concat title (concat " uses the default " backend))))
the_one key backend title (d ∷ []) = pure d
the_one key backend title ds = fail (
    bad_request (
      concat "multiple dashboards " (
        concat (names_of key ds)
          (concat " with title " (concat title (concat " uses the default " backend))))))

abbrev pub client_namespace : String → String → List Namespace → Option String
client_namespace key org [] = none
client_namespace key org (ns ∷ r) =
    if index ns.annotations key == org
    then some (monitoring_namespace ns.name)
    else client_namespace key org r

abbrev pub required_user : Option (Option (List String)) → Answer (Option (List String))
required_user none = fails (bad_request "missing user info")
required_user (some orgs) = yields orgs

abbrev pub required_status : GrafanaDashboard → Answer GrafanaStatus
required_status d = elim d.status [
  | none ↦ fails (
      bad_request
        (concat "Status.Dashboard field is missing in GrafanaDashboard " (key_text d.key)))
  | some s ↦ yields s
]

module _ (env : Env) where
  abbrev pub by_org : Option (List String) → Act (Option String)
  by_org (some (org ∷ [])) =
      check (ask (λ t. env.client_namespaces)) fail
        λ nss. pure (client_namespace env.org_id_key org nss)
  by_org _ = pure none

  -- `useClientOrgDashboard`: the namespace with the dashboards of the user's client organization.
  unfoldable pub use_client_org_dashboard : Option (List String) → Act (Option String)
  unfolding check pure fail ask index
  use_client_org_dashboard orgs = by_org orgs

  abbrev pub titled : Option String → String → String
  titled none title = title
  titled (some ns) title = env.client_title title

  unfoldable pub find_grafana : Option (List String) → Request → Act GrafanaDashboard
  unfolding ◌>>=◌ use_client_org_dashboard
  find_grafana orgs req = elim req.reference [
    | some k ↦
        branch (k.namespace == "") (fail (failed "missing namespace for Dashboard"))
          (ask (λ t. env.get_grafana k))
    | none ↦ branch (req.title == "") (pure no_grafana) (do
      ns ← use_client_org_dashboard orgs
      ds ← ask (λ t. env.list_grafana ns (titled ns req.title))
      the_one (λ d. d.key) "Grafana" (titled ns req.title) ds)
  ]

  -- A Perses dashboard that is referred to may be missing.
  unfoldable pub find_perses : Option (List String) → Request → Act PersesDashboard
  unfolding ◌>>=◌ use_client_org_dashboard
  find_perses orgs req = elim req.reference [
    | some k ↦ branch (k.namespace == "") (fail (failed "missing namespace for Dashboard")) (
        check (ask (λ t. env.get_perses k)) (λ e. branch (is_not_found e) (pure no_perses) (fail e))
          pure)
    | none ↦ branch (req.title == "") (pure no_perses) (do
      ns ← use_client_org_dashboard orgs
      ds ← ask (λ t. env.list_perses ns (titled ns req.title))
      the_one (λ d. d.key) "Perses" (titled ns req.title) ds)
  ]

  abbrev pub decided : ObjectKey → Decision → Act (Unit {0})
  decided key allow = pure tt
  decided key (refuse why) = fail (forbidden (concat (key_text key) (concat ": " why)))

  -- Whether the user may read an object.
  unfoldable pub authorize : Resource → ObjectKey → Act (Unit {0})
  unfolding ◌>>=◌
  authorize r key = do d ← or_internal (env.authorize r key); decided key d
