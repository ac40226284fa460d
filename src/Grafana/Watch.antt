-- ===== src/Grafana/Watch.antt =====
-- Which dashboards are reconciled again when an AppBinding changes: IsStateChanged and appHandler of
-- grafanadashboard_controller.go, and their counterparts of persesdashboard_controller.go.
use grafana_tools.Base.{
  String, Bool, true, false, not, Option, none, some, List, [], ◌∷◌, ◌++◌, ◌≡◌, refl, All, ◌&&◌,
  ◌||◌, ◌==◌, if◌then◌else◌,
}
use grafana_tools.Kube.{ObjectKey, Error, key_eq}
use grafana_tools.Kube.Exec.{Answer, yields, fails}

-- A GrafanaDashboard or PersesDashboard as far as the handlers read it; the state is that of the
-- recorded dashboard, where both are there.
pub record Watched : Type 0 where
  pub key : ObjectKey
  pub is_failed : Bool
  pub state : Option String

-- The fingerprint is that of the AppBinding, which the cache keeps through a run.
unfoldable pub is_state_changed : Option String → Answer String → Bool
is_state_changed none current = false
is_state_changed (some state) (fails e) = false
is_state_changed (some state) (yields current) = not (current == state)

-- `resolve` is `GetGrafana` or `GetPerses`, as to the key of what it finds.
module _ (binding : ObjectKey) (current : Answer String)
    (resolve : Watched → Answer ObjectKey) where
  unfoldable pub is_concerned : Watched → ObjectKey → Bool
  unfolding is_state_changed
  is_concerned d found = key_eq found binding && (d.is_failed || is_state_changed d.state current)

  abbrev pub requested : Watched → ObjectKey → List ObjectKey
  requested d found = if is_concerned d found then d.key ∷ [] else []

  abbrev pub extended :
      Watched
      → Answer ObjectKey
      → (List ObjectKey → List ObjectKey)
      → List ObjectKey
      → List ObjectKey
  extended d (fails e) rest req = []
  extended d (yields found) rest req = rest (req ++ requested d found)

  -- The loop for GrafanaDashboards, with the requests so far: an AppBinding that is not found ends it
  -- with none.
  unfoldable pub grafana_requests : List Watched → List ObjectKey → List ObjectKey
  unfolding is_concerned
  grafana_requests [] req = req
  grafana_requests (d ∷ ds) req = extended d (resolve d) (grafana_requests ds) req

  abbrev pub skipping : Watched → Answer ObjectKey → List ObjectKey → List ObjectKey
  skipping d (fails e) req = req
  skipping d (yields found) req = req ++ requested d found

  -- The loop for PersesDashboards: an AppBinding that is not found is passed over.
  unfoldable pub perses_requests : List Watched → List ObjectKey → List ObjectKey
  unfolding is_concerned
  perses_requests [] req = req
  perses_requests (d ∷ ds) req = perses_requests ds (skipping d (resolve d) req)

  abbrev pub IsResolved : Watched → Type 0
  IsResolved d = (found : ObjectKey) × (resolve d ≡ yields found)

  ended :
      (x : Watched) (rest : List ObjectKey → List ObjectKey) (req : List ObjectKey)
      (r : Answer ObjectKey)
      → ((req' : List ObjectKey) → rest req' ≡ [])
      → extended x r rest req ≡ []
  ended x rest req (fails e) h = refl
  ended x rest req (yields found) h = h (req ++ requested x found)

  -- When the AppBinding of one GrafanaDashboard cannot be found, no dashboard at all is reconciled
  -- again, those that the changed AppBinding concerns included.
  pub unresolved_drops_all :
      (before after : List Watched) (d : Watched) (e : Error) (req : List ObjectKey)
      → resolve d ≡ fails e
      → grafana_requests (before ++ d ∷ after) req ≡ []
  unfolding grafana_requests
  unresolved_drops_all [] after d e req h = rw h refl
  unresolved_drops_all (x ∷ before) after d e req h =
      ended x (grafana_requests (before ++ d ∷ after)) req (resolve x)
        (λ req'. unresolved_drops_all before after d e req' h)

  -- Where the AppBindings of all dashboards are found, the handlers for Grafana and for Perses ask for
  -- the same reconciles.
  pub requests_agree :
      (ds : List Watched) (req : List ObjectKey)
      → All IsResolved ds
      → grafana_requests ds req ≡ perses_requests ds req
  unfolding grafana_requests perses_requests
  requests_agree [] req h = refl
  requests_agree (d ∷ ds) req ((found, e), h) =
      rw e (requests_agree ds (req ++ requested d found) h)

abbrev pub is_changed_at : Option String → Answer (Answer String) → Bool
is_changed_at state (fails e) = false
is_changed_at state (yields current) = is_state_changed state current

-- The predicate for dashboards of either kind: `found` is the AppBinding that `GetGrafana` or `GetPerses`
-- finds, as to its fingerprint.
unfoldable pub is_watched :
    (is_deleted already_reconciled : Bool) → (found : Answer (Answer String)) → Watched → Bool
unfolding is_state_changed
is_watched is_deleted already_reconciled found d =
    if is_deleted
    then true
    else if not already_reconciled
    then true
    else is_changed_at d.state found
