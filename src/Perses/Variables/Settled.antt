-- ===== src/Perses/Variables/Settled.antt =====
-- What `updateDatasourceVariable` sets in a Perses dashboard, and what it leaves.
use grafana_tools.Base.{
  String, true, false, subst, sym, ◌||◌, List, Option, some, none, [], ◌∷◌, ◌≡◌, ◌≢◌, ◌⊎◌, inl, inr,
  refl, arith, eq_iff, Option-cases, Bool-cases, ◌==◌,
}
use grafana_tools.Kube.Exec.{Answer, yields, fails, Outcome, ok, err, panic}
use grafana_tools.Json.{Value, object, text, field, no_fields, get, put}
use grafana_tools.Perses.Variables.{
  ListSpec, Variable, Query, Panel, PersesModel, put_absent, in_object, update_list,
  update_variable, update_variables, update_query, each, update_panel, update_panels, and_panel,
  with_panels, with_variables, update_datasource_variable, prepend, update_spec,
  is_prometheus_variable, datasource_of,
}

-- An object has the value as its datasource, unless it has one of its own; what is no object stays.
abbrev pub IsGiven : Value → Value → Value → Type 0
IsGiven v (object fs) w =
    ((own : Value) × (get "datasource" fs ≡ some own) × (w ≡ object fs))
    ⊎ ((get "datasource" fs ≡ none) × (w ≡ object (put "datasource" v fs)))
IsGiven v value w = w ≡ value

abbrev pub prometheus_datasource : String → Value
prometheus_datasource ds =
    object (field "kind" (text "PrometheusDatasource") (field "name" (text ds) no_fields))

-- The variable of the name "datasource" has the datasource as its default; one whose values come from
-- Prometheus is given it; another one stays.
abbrev pub ListIsSet : String → ListSpec → ListSpec → Type 0
ListIsSet ds l l' =
    ((l.name ≡ "datasource") × (l' ≡ record l { default_value = some ds }))
    ⊎ (((l.name ≢ "datasource")
          × ((l.plugin_kind ≡ "PrometheusLabelValuesVariable")
              ⊎ (l.plugin_kind ≡ "PrometheusPromQLVariable"))
          × (spec : Value) × (l' ≡ record l { plugin_spec = spec })
          × IsGiven (prometheus_datasource ds) l.plugin_spec spec)
        ⊎ ((l.name ≢ "datasource")
            × (l.plugin_kind ≢ "PrometheusLabelValuesVariable")
            × (l.plugin_kind ≢ "PrometheusPromQLVariable")
            × (l' ≡ l)))

abbrev pub VariableIsSet : String → Variable → Variable → Type 0
VariableIsSet ds v v' =
    ((v.kind ≡ "ListVariable")
      × (l : ListSpec) × (l' : ListSpec) × (v.list_spec ≡ some l)
      × (v' ≡ record v { list_spec = some l' })
      × ListIsSet ds l l')
    ⊎ ((v.kind ≢ "ListVariable") × (v' ≡ v))

abbrev pub QueryIsSet : Query → Query → Type 0
QueryIsSet q q' =
    ((q.kind ≡ "TimeSeriesQuery")
      × (q.plugin_kind ≡ "PrometheusTimeSeriesQuery")
      × (spec : Value) × (q' ≡ record q { plugin_spec = spec })
      × IsGiven (text "$datasource") q.plugin_spec spec)
    ⊎ (((q.kind ≢ "TimeSeriesQuery") ⊎ (q.plugin_kind ≢ "PrometheusTimeSeriesQuery")) × (q' ≡ q))

-- Two lists of the same length, element by element.
abbrev pub Pairs : {A : Type 0} → (A → A → Type 0) → List A → List A → Type 0
Pairs R [] [] = Unit
Pairs R (a ∷ as') (b ∷ bs) = R a b × Pairs R as' bs
Pairs R _ _ = ⊥

abbrev pub PanelIsSet : String × Option Panel → String × Option Panel → Type 0
PanelIsSet (k, none) kp = ⊥
PanelIsSet (k, some p) kp =
    (qs : List Query) × (kp ≡ (k, some (record p { queries = qs }))) × Pairs QueryIsSet p.queries qs

abbrev pub IsSettled : String → PersesModel → PersesModel → Type 0
IsSettled ds m m' =
    (vs : List Variable) × (ps : List (String × Option Panel)) × (m'
      ≡ record m { variables = vs; panels = ps })
    × Pairs (VariableIsSet ds) m.variables vs
    × Pairs PanelIsSet m.panels ps

given : (v w : Value) → IsGiven v w (in_object (put_absent "datasource" v) w)
given v (object fs) = elim (Option-cases (get "datasource" fs)) [
  | inl missing ↦ inr (missing, ground (arith, missing))
  | inr (own, there) ↦ inl (own, there, ground (arith, there))
]
given v _ = refl

differs : (a b : String) → (a == b) ≡ false → a ≢ b
differs a b e same = ground (arith, e, same, eq_iff a b)

query_set : (q : Query) → QueryIsSet q (update_query q)
unfolding update_query
query_set q = elim (Bool-cases (q.kind == "TimeSeriesQuery")) [
  | inl series ↦ elim (Bool-cases (q.plugin_kind == "PrometheusTimeSeriesQuery")) [
    | inl plugin ↦ inl (
      (eq_iff q.kind "TimeSeriesQuery").0 series,
      (eq_iff q.plugin_kind "PrometheusTimeSeriesQuery").0 plugin,
      in_object (put_absent "datasource" (text "$datasource")) q.plugin_spec,
      rw (series, plugin) refl,
      given (text "$datasource") q.plugin_spec,
    )
    | inr other ↦ inr (inr (differs q.plugin_kind _ other), rw (series, other) refl)
  ]
  | inr other ↦ inr (inl (differs q.kind _ other), rw other refl)
]

asked_of_prometheus :
    (ds : String) (l : ListSpec)
    → (l.name == "datasource") ≡ false
    → is_prometheus_variable l.plugin_kind ≡ true
    → update_list ds l ≡ record l {
      plugin_spec = in_object (put_absent "datasource" (datasource_of ds)) l.plugin_spec;
    }
unfolding update_list
asked_of_prometheus ds l e k = ground (arith, e, k)

left_alone :
    (ds : String) (l : ListSpec)
    → (l.name == "datasource") ≡ false
    → is_prometheus_variable l.plugin_kind ≡ false
    → update_list ds l ≡ l
unfolding update_list
left_alone ds l e k = ground (arith, e, k)

defaulted :
    (ds : String) (l : ListSpec)
    → (l.name == "datasource") ≡ true
    → update_list ds l ≡ record l { default_value = some ds }
unfolding update_list
defaulted ds l e = rw e refl

by_name : (a b c : String) → (a == b || a == c) ≡ true → (a ≡ b) ⊎ (a ≡ c)
by_name a b c e = ground (arith, e, eq_iff a b, eq_iff a c)

by_no_name : (a b c : String) → (a == b || a == c) ≡ false → (a ≢ b) × (a ≢ c)
by_no_name a b c e = (differs a b (ground (arith, e)), differs a c (ground (arith, e)))

list_set : (ds : String) (l : ListSpec) → ListIsSet ds l (update_list ds l)
list_set ds l = elim (Bool-cases (l.name == "datasource")) [
  | inl own ↦ inl ((eq_iff l.name "datasource").0 own, defaulted ds l own)
  | inr other ↦ elim (Bool-cases (is_prometheus_variable l.plugin_kind)) [
    | inl prometheus ↦ inr (
        inl (
          differs l.name _ other,
          by_name l.plugin_kind _ _ prometheus,
          in_object (put_absent "datasource" (datasource_of ds)) l.plugin_spec,
          asked_of_prometheus ds l other prometheus,
          given (prometheus_datasource ds) l.plugin_spec,
        ))
    | inr static ↦
        let (not_values, not_query) = by_no_name l.plugin_kind _ _ static in
        inr (inr (differs l.name _ other, not_values, not_query, left_alone ds l other static))
  ]
]

listed :
    (ds : String) (v w : Variable) (o : Option ListSpec)
    → v.list_spec ≡ o
    → update_spec ds v o ≡ yields w
    → (l : ListSpec) × (l' : ListSpec) × (v.list_spec ≡ some l)
      × (w ≡ record v { list_spec = some l' })
      × ListIsSet ds l l'
listed ds v w none same h = ground (arith, h)
listed ds v w (some l) same h = (l, update_list ds l, same, ground (arith, h), list_set ds l)

variable_set :
    (ds : String) (v w : Variable) → update_variable ds v ≡ yields w → VariableIsSet ds v w
unfolding update_variable
variable_set ds v w h = elim (Bool-cases (v.kind == "ListVariable")) [
  | inl list ↦
      let (l, l', there, same, is_set) = listed ds v w v.list_spec refl (ground (arith, h, list)) in
      inl ((eq_iff v.kind "ListVariable").0 list, l, l', there, same, is_set)
  | inr other ↦ inr (differs v.kind _ other, ground (arith, h, other))
]

prepend_inv :
    {A : Type 0} (a : Answer A) (r : Answer (List A)) {l : List A}
    → prepend a r ≡ yields l
    → (x : A) × (xs : List A) × (a ≡ yields x) × (r ≡ yields xs) × (l ≡ x ∷ xs)
prepend_inv (fails e) r h = cc
prepend_inv (yields x) (fails e) h = cc
prepend_inv (yields x) (yields xs) h = (x, xs, refl, refl, cc)

variables_set :
    (ds : String) (vs ws : List Variable)
    → update_variables ds vs ≡ yields ws
    → Pairs (VariableIsSet ds) vs ws
unfolding update_variables
variables_set ds [] [] h = tt
variables_set ds [] (w ∷ ws) h = ground (arith, h)
variables_set ds (v ∷ vs) ws h =
    let (x, xs, ex, exs, same) = prepend_inv (update_variable ds v) (update_variables ds vs) h in
    subst (Pairs (VariableIsSet ds) (v ∷ vs)) (sym same)
      (variable_set ds v x ex, variables_set ds vs xs exs)

queries_set : (qs : List Query) → Pairs QueryIsSet qs (each update_query qs)
queries_set [] = tt
queries_set (q ∷ qs) = (query_set q, queries_set qs)

and_panel_inv :
    (p : String × Option Panel) (r : Outcome (List (String × Option Panel)))
    (ps : List (String × Option Panel))
    → and_panel p r ≡ ok ps
    → (rest : List (String × Option Panel)) × (r ≡ ok rest) × (ps ≡ p ∷ rest)
and_panel_inv p (ok rest) ps h = (rest, refl, ground (arith, h))
and_panel_inv p (err e) ps h = ground (arith, h)
and_panel_inv p (panic m) ps h = ground (arith, h)

panels_set :
    (ps qs : List (String × Option Panel)) → update_panels ps ≡ ok qs → Pairs PanelIsSet ps qs
unfolding update_panels update_panel
panels_set [] [] h = tt
panels_set [] (q ∷ qs) h = ground (arith, h)
panels_set ((k, none) ∷ ps) qs h = ground (arith, h)
panels_set ((k, some p) ∷ ps) qs h =
    let (rest, e, same) = and_panel_inv (k, some (update_panel p)) (update_panels ps) qs h in
    subst (Pairs PanelIsSet ((k, some p) ∷ ps)) (sym same)
      ((each update_query p.queries, refl, queries_set p.queries), panels_set ps rest e)

with_panels_set :
    (ds : String) (m m' : PersesModel) (vs : List Variable)
    (r : Outcome (List (String × Option Panel)))
    → update_variables ds m.variables ≡ yields vs
    → update_panels m.panels ≡ r
    → with_panels (record m { variables = vs }) r ≡ ok m'
    → IsSettled ds m m'
with_panels_set ds m m' vs (ok ps) ev ep h =
    (vs, ps, ground (arith, h), variables_set ds m.variables vs ev, panels_set m.panels ps ep)
with_panels_set ds m m' vs (err e) ev ep h = ground (arith, h)
with_panels_set ds m m' vs (panic why) ev ep h = ground (arith, h)

with_variables_set :
    (ds : String) (m m' : PersesModel) (r : Answer (List Variable))
    → update_variables ds m.variables ≡ r
    → with_variables m r ≡ ok m'
    → IsSettled ds m m'
with_variables_set ds m m' (fails e) ev h = ground (arith, h)
with_variables_set ds m m' (yields vs) ev h =
    with_panels_set ds m m' vs (update_panels m.panels) ev refl h

-- When the datasource variable of a dashboard is set, then just this is changed: a list variable named
-- "datasource" has the datasource as its default; the plugin of any other list variable whose values
-- come from Prometheus names the datasource, and that of a time series query to Prometheus names the
-- variable, unless the plugin has a datasource of its own or its specification is no object. All else
-- in the dashboard stays, with every list in its order.
pub update-IsSettled :
    (m m' : PersesModel) (ds : String) → update_datasource_variable m ds ≡ ok m' → IsSettled ds m m'
unfolding update_datasource_variable
update-IsSettled m m' ds h = with_variables_set ds m m' (update_variables ds m.variables) refl h
