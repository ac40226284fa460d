-- ===== src/DashboardGroup/Vars.antt =====
-- The variables of a link.
use grafana_tools.Base.{
  String, true, false, List, [], ◌∷◌, ◌≡◌, refl, ◌∙◌, arith, eq_iff, All, if◌then◌else◌, eqb,
  concat, Bool-cases, inl, inr,
}
use grafana_tools.DashboardGroup.{
  Var, is_datasource, datasource_var, set_datasource, has_datasource, append, upsert_datasource_var,
  Values, Encoding, add_sources, count_sources, count_targets, target_query, add_vars,
}

-- The other variables, in their order.
abbrev pub others : List Var → List Var
others [] = []
others (v ∷ vs) = if is_datasource v then others vs else v ∷ others vs

abbrev pub Reads : String → Var → Type 0
Reads ds v = is_datasource v ≡ true → v.value ≡ ds

set-Reads : (ds : String) (vs : List Var) → All (Reads ds) (set_datasource ds vs)
unfolding set_datasource
set-Reads ds [] = tt
set-Reads ds (v ∷ vs) = (ground arith, set-Reads ds vs)

others-set : (ds : String) (vs : List Var) → others (set_datasource ds vs) ≡ others vs
unfolding set_datasource
others-set ds [] = refl
others-set ds (v ∷ vs) = ground (arith, others-set ds vs)

has-set : (ds : String) (vs : List Var) → has_datasource (set_datasource ds vs) ≡ has_datasource vs
unfolding set_datasource has_datasource
has-set ds [] = refl
has-set ds (v ∷ vs) = ground (arith, has-set ds vs)

append-Reads :
    (ds : String) (vs : List Var)
    → All (Reads ds) vs
    → All (Reads ds) (append vs (datasource_var ds))
append-Reads ds [] h = ground arith
append-Reads ds (v ∷ vs) (h, hs) = (h, append-Reads ds vs hs)

others-append : (ds : String) (vs : List Var) → others (append vs (datasource_var ds)) ≡ others vs
others-append ds [] = ground (arith, eq_iff "datasource" "datasource")
others-append ds (v ∷ vs) = ground (arith, others-append ds vs)

has-append : (ds : String) (vs : List Var) → has_datasource (append vs (datasource_var ds)) ≡ true
unfolding has_datasource
has-append ds [] = ground (arith, eq_iff "datasource" "datasource")
has-append ds (v ∷ vs) = ground (arith, has-append ds vs)

-- The variables that a link is opened with name a datasource, every one that does names the given one,
-- and the other variables are those of the request, in their order.
pub upsert_lem :
    (ds : String) (vars : List Var)
    → let r = upsert_datasource_var vars ds in
      (has_datasource r ≡ true) × All (Reads ds) r × (others r ≡ others vars)
unfolding upsert_datasource_var
upsert_lem ds vars = elim (Bool-cases (has_datasource vars)) [
  | inl e ↦ rw e (rw (has-set ds vars) (e, set-Reads ds vars, others-set ds vars))
  | inr e ↦ rw e (
    has-append ds (set_datasource ds vars),
    append-Reads ds (set_datasource ds vars) (set-Reads ds vars),
    others-append ds (set_datasource ds vars) ∙ others-set ds vars,
  )
]

counts :
    (e : Encoding) (vs : List Var) → has_datasource vs ≡ true → eqb (count_sources e vs) 0 ≡ false
unfolding has_datasource count_sources
counts e [] h = ground (arith, h)
counts e (v ∷ vs) h = ground (arith, h, counts e vs)

-- So the query of a link never takes `?` for a separator: it is the encoded values, and after a `&` the
-- target variables, where there are any.
pub add_vars-upsert :
    (e : Encoding) (q : Values) (vars : List Var) (ds : String)
    → let vs = upsert_datasource_var vars ds in
      let raw = e.encode (add_sources e q vs) in
      add_vars e q vs
      ≡ (if eqb (count_targets e vs) 0 then raw else concat raw (concat "&" (target_query e "" vs)))
unfolding add_vars
add_vars-upsert e q vars ds =
    rw (counts e (upsert_datasource_var vars ds) (upsert_lem ds vars).0) refl
