-- ===== src/DashboardGroup/Links.antt =====
-- `getDashboardLink` of storage.go, with the links to dashboards and panels.
pub mod Authorized
use grafana_tools.Base.{
  String, ℕ, Bool, true, false, not, Option, none, some, List, [], ◌∷◌, ◌&&◌, ◌||◌, ◌==◌, Dict,
  index, lookup, is_some, itoa, is_empty, concat, if◌then◌else◌,
}
use grafana_tools.Kube.{
  ObjectKey, Error, not_found, bad_request, forbidden, unavailable, internal, failed, message,
  is_not_found,
}
use grafana_tools.Kube.Exec.{
  Answer, yields, fails, Exec, pure, fail, crash, ask, branch, check, ◌>>=◌, ◌>>◌,
}
use grafana_tools.Grafana.State.{PersesConfiguration, configured, no_perses_configuration}
use grafana_tools.ClientOrg.{Namespace, monitoring_namespace}
use grafana_tools.DashboardGroup.{
  Var, source, is_source, Values, Encoding, append, add_vars, upsert_datasource_var,
}
use grafana_tools.DashboardGroup.Panels.{
  PanelRequest, Inner, Panel, panel_map, is_included, or_zero, flat_panels, selected_panels,
}
use grafana_tools.DashboardGroup.Objects.{
  Request, TimeRange, GrafanaStatus, PersesStatus, GrafanaDashboard, PersesDashboard, App, Resource,
  dashboards, apps, Decision, allow, refuse, PanelLink, Response, Event, Act, Env, no_key,
  no_grafana, no_perses,
}
use grafana_tools.DashboardGroup.Find.{
  there, or_internal, key_text, required_user, required_status, use_client_org_dashboard,
  find_grafana, find_perses, authorize,
}

-- What an embedding asks for: how often to refresh, and the time range.
abbrev pub or_30s : String → String
or_30s refresh = if refresh == "" then "30s" else refresh

abbrev pub from_to : Option TimeRange → Values → Values
from_to none q = append (append q ("from", "now-3h")) ("to", "now")
from_to (some r) q = append (append q ("from", r.from)) ("to", r.to)

abbrev pub grafana_query : ℕ → String → Option TimeRange → Values
grafana_query org refresh range =
    from_to range (("orgId", itoa org) ∷ ("refresh", or_30s refresh) ∷ [])

abbrev pub perses_path : PersesStatus → List String
perses_path s = "projects" ∷ s.project_name ∷ "folders" ∷ s.folder_name ∷ "dashboards" ∷ s.name ∷ []

module _ (env : Env) where
  abbrev pub board_of : GrafanaDashboard → Option (Answer (List Panel)) → Act (List Panel)
  board_of d none =
      fail
        (bad_request (concat "GrafanaDashboard " (concat (key_text d.key) " is missing a model")))
  board_of d (some r) =
      check (ask (λ t. r))
        (λ e. fail (failed (concat "failed to unmarshal model for GrafanaDashboard " (message e))))
        pure

  abbrev pub perses_panels :
      Option (Answer (List (String × Option String))) → Act (List (String × Option String))
  perses_panels none = pure []
  perses_panels (some r) =
      check (ask (λ t. r))
        (λ e. fail (failed (concat "failed to unmarshal model for PersesDashboard " (message e))))
        pure

  abbrev pub config_of : App → Act PersesConfiguration
  config_of app =
      check (ask (λ t. configured no_perses_configuration app.perses_parameters))
        (λ e. fail (failed (concat "failed to unmarshal PersesConfiguration " (message e)))) pure

  abbrev pub linked : String → List String → Values → List Var → String
  linked host path q vars = env.link host path (add_vars env.encoding q vars)

  -- `toEmbeddedPanel`, for a panel that is included.
  unfoldable pub to_embedded_panel :
      Request → GrafanaStatus → String → String → Option TimeRange → Inner → Act PanelLink
  unfolding ◌>>=◌ panel_map lookup itoa
  to_embedded_panel req s host refresh range p = do
    or_internal (env.parse host)
    uid ← there s.uid
    slug ← there s.slug
    org ← there s.org_id
    pure (record {
      title = p.title;
      url =
          linked host ("d-solo" ∷ uid ∷ slug ∷ [])
            (append (grafana_query org refresh range) ("panelId", itoa p.id)) req.vars;
      width = or_zero (lookup (panel_map req.panels []) p.title);
    })

  -- The loops over the panels of a Grafana dashboard.
  unfoldable pub embedded_panels :
      Request
      → GrafanaStatus
      → String
      → String
      → Option TimeRange
      → List Inner
      → Act (List PanelLink)
  unfolding ◌>>=◌ is_included
  embedded_panels req s host refresh range [] = pure []
  embedded_panels req s host refresh range (p ∷ ps) =
      branch (is_included (panel_map req.panels []) p.title)
        (do
          l ← to_embedded_panel req s host refresh range p
          ls ← embedded_panels req s host refresh range ps
          pure (l ∷ ls))
        (embedded_panels req s host refresh range ps)

  -- `toEmbeddedPersesPanels`, for the panels selected.
  abbrev pub perses_links :
      Request → PersesStatus → String → String → String → List String → Act (List PanelLink)
  perses_links req s host refresh datasource [] = pure []
  perses_links req s host refresh datasource (r ∷ rs) =
      or_internal (env.parse host)
      >> pure (
          record {
            title = s.name;
            url =
                linked host (perses_path s)
                  (("selectedPanels", env.encode_refs (r ∷ rs))
                    ∷ ("refresh", or_30s refresh)
                    ∷ ("var-datasource", datasource)
                    ∷ [])
                  req.vars;
            width = 0;
          }
          ∷ [])

  -- Where Perses is there with a recorded dashboard, it is linked to.
  abbrev pub on_perses : String → Option PersesStatus → Option PersesStatus
  on_perses host none = none
  on_perses host (some s) = if host == "" then none else some s

  unfoldable pub embedded :
      Request
      → String
      → Option TimeRange
      → GrafanaStatus
      → Option PersesStatus
      → String
      → String
      → List Panel
      → List (String × Option String)
      → String
      → Act (List PanelLink)
  unfolding ◌>>=◌ embedded_panels flat_panels selected_panels
  embedded req refresh range s ps ghost phost board panels datasource = elim (on_perses phost ps) [
    | some p ↦ elim (selected_panels req.panels panels) [
      | none ↦ crash "nil dereference of a panel"
      | some refs ↦ perses_links req p phost refresh datasource refs
    ]
    | none ↦ embedded_panels req s ghost refresh range (flat_panels board)
  ]

  -- The link to the dashboard itself; the one of Grafana is built first in any case.
  unfoldable pub direct :
      Request
      → String
      → Option TimeRange
      → GrafanaStatus
      → Option PersesStatus
      → String
      → String
      → String
      → Act String
  unfolding ◌>>=◌ itoa
  direct req refresh range s ps ghost phost datasource = do
    or_internal (env.parse ghost)
    uid ← there s.uid
    slug ← there s.slug
    org ← there s.org_id
    let url = linked ghost ("d" ∷ uid ∷ slug ∷ []) (grafana_query org refresh range) req.vars
    elim (on_perses phost ps) [
      | none ↦ pure url
      | some p ↦
          or_internal (env.parse phost)
          >> pure (
              linked phost (perses_path p)
                (("var-datasource", datasource)
                  ∷ ("start", "1h")
                  ∷ ("refresh", or_30s refresh)
                  ∷ [])
                req.vars)
    ]

  unfoldable pub get_dashboard_link : Request → String → Option TimeRange → Bool → Act Response
  get_dashboard_link req refresh range embed = do
    orgs ← ask (λ t. required_user env.user)
    d ← find_grafana env orgs req
    p ← find_perses env orgs req
    authorize env dashboards d.key
    s ← ask (λ t. required_status d)
    g ← ask (λ t. env.grafana_of d)
    a ← ask (λ t. env.perses_of p)
    authorize env apps g.key
    ghost ← ask (λ t. g.url)
    phost ← ask (λ t. a.url)
    board ← board_of d d.model
    panels ← perses_panels p.model
    config ← config_of a
    branch embed
        (do
          links ← embedded req refresh range s p.status ghost phost board panels config.datasource
          pure (record { reference = req.reference; title = req.title; url = ""; panels = links }))
        (do
          url ← direct req refresh range s p.status ghost phost config.datasource
          pure (record { reference = req.reference; title = req.title; url = url; panels = [] }))
