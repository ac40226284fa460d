-- ===== src/DashboardGroup/Panels.antt =====
-- Which panels of a dashboard are linked to.
use grafana_tools.Base.{
  String, ℕ, Bool, true, Option, none, some, List, [], ◌∷◌, ◌++◌, ◌==◌, is_some, is_empty, Dict,
  lookup, if◌then◌else◌,
}

-- `uiapi.PanelLinkRequest`, as to the title and the width.
pub record PanelRequest : Type 0 where
  pub title : String
  pub width : ℕ

-- `sdk.Panel`; only a row has panels of its own, which are no rows.
pub record Inner : Type 0 where
  pub id : ℕ
  pub title : String

pub record Panel : Type 0 where
  pub inner : Inner
  pub is_row : Bool
  pub nested : List Inner

abbrev pub put {ℓ} : {V : Type ℓ} → String → V → Dict V → Dict V
put key value [] = (key, value) ∷ []
put key value ((k, v) ∷ m) = if key == k then (key, value) ∷ m else (k, v) ∷ put key value m

-- `panelMap`, over the requests so far.
unfoldable pub panel_map : List PanelRequest → Dict ℕ → Dict ℕ
panel_map [] m = m
panel_map (p ∷ ps) m = panel_map ps (put p.title p.width m)

-- `includePanel`
unfoldable pub is_included : Dict ℕ → String → Bool
unfolding lookup
is_included m title = if is_empty m then true else is_some (lookup m title)

abbrev pub or_zero : Option ℕ → ℕ
or_zero none = 0
or_zero (some w) = w

-- The panels that the two loops over a Grafana dashboard come to.
unfoldable pub flat_panels : List Panel → List Inner
flat_panels [] = []
flat_panels (p ∷ ps) = if p.is_row then p.nested ++ flat_panels ps else p.inner ∷ flat_panels ps

-- `refByTitle`: the panels of a Perses dashboard, each a reference and a title, in the order in which
-- the map is gone through. A panel that is nil, here without a title, is dereferenced: there is no result.
unfoldable pub ref_by_title :
    Dict ℕ → List (String × Option String) → Dict String → Option (Dict String)
unfolding is_included
ref_by_title m [] refs = some refs
ref_by_title m ((ref, none) ∷ ps) refs = none
ref_by_title m ((ref, some title) ∷ ps) refs =
    let rest = ref_by_title m ps (put title ref refs) in
    if is_included m title then rest else ref_by_title m ps refs

abbrev pub values : Dict String → List String
values [] = []
values ((k, v) ∷ m) = v ∷ values m

abbrev pub found_refs : Dict String → List PanelRequest → List String
found_refs refs [] = []
found_refs refs (p ∷ ps) = elim (lookup refs p.title) [
  | none ↦ found_refs refs ps
  | some ref ↦ ref ∷ found_refs refs ps
]

-- `selectedPanels`: in the order of the request, where there is one.
abbrev pub selected_refs : List PanelRequest → Option (Dict String) → Option (List String)
selected_refs reqs none = none
selected_refs reqs (some refs) = some (if is_empty reqs then values refs else found_refs refs reqs)

unfoldable pub selected_panels :
    List PanelRequest → List (String × Option String) → Option (List String)
unfolding panel_map ref_by_title
selected_panels reqs panels = selected_refs reqs (ref_by_title (panel_map reqs []) panels [])
