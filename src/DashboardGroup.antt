-- ===== src/DashboardGroup.antt =====
-- pkg/registry/ui/dashboardgroup: links to dashboards, with the variables that they are opened with.
pub mod Vars
pub mod Panels
pub mod Links
pub mod Objects
pub mod Find
pub mod Create
use grafana_tools.Base.{
  String, ℕ, Bool, true, false, not, Option, none, some, List, [], ◌∷◌, ◌&&◌, ◌||◌, ◌==◌, eqb, suc,
  concat, if◌then◌else◌,
}

pub data VarType : Type 0 where
  source target other_type : VarType

-- `uiapi.DashboardVar`
pub record Var : Type 0 where
  pub name : String
  pub value : String
  pub type : VarType

abbrev pub is_source : VarType → Bool
is_source source = true
is_source _ = false

abbrev pub is_target : VarType → Bool
is_target target = true
is_target _ = false

abbrev pub is_datasource : Var → Bool
is_datasource v = is_source v.type && v.name == "datasource"

abbrev pub datasource_var : String → Var
datasource_var ds = record { name = "datasource"; value = ds; type = source }

-- The loop of `upsertDatasourceVar`, and whether it has found one.
unfoldable pub set_datasource : String → List Var → List Var
set_datasource ds [] = []
set_datasource ds (v ∷ vs) =
    (if is_datasource v then record v { value = ds } else v) ∷ set_datasource ds vs

unfoldable pub has_datasource : List Var → Bool
has_datasource [] = false
has_datasource (v ∷ vs) = is_datasource v || has_datasource vs

abbrev pub append : {A : Type 0} → List A → A → List A
append [] a = a ∷ []
append (x ∷ xs) a = x ∷ append xs a

unfoldable pub upsert_datasource_var : List Var → String → List Var
unfolding set_datasource has_datasource
upsert_datasource_var vars ds =
    if has_datasource vars
    then set_datasource ds vars
    else append (set_datasource ds vars) (datasource_var ds)

-- `url.Values` in the order in which they were added.
abbrev pub Values : Type 0
Values = List (String × String)

-- What the libraries make of a variable's name and of a query.
pub record Encoding : Type 0 where
  pub var_name : Var → String
  pub escape : String → String
  pub encode : Values → String

module _ (e : Encoding) where
  -- The first loop of `addVars`: the values, and how many were added.
  unfoldable pub add_sources : Values → List Var → Values
  add_sources q [] = q
  add_sources q (v ∷ vs) =
      let rest = add_sources (append q (e.var_name v, v.value)) vs in
      if is_target v.type then add_sources q vs else rest

  unfoldable pub count_sources : List Var → ℕ
  count_sources [] = 0
  count_sources (v ∷ vs) = if is_target v.type then count_sources vs else suc (count_sources vs)

  unfoldable pub count_targets : List Var → ℕ
  count_targets [] = 0
  count_targets (v ∷ vs) = if is_target v.type then suc (count_targets vs) else count_targets vs

  abbrev pub joined : String → String → String
  joined buf piece = if buf == "" then piece else concat buf (concat "&" piece)

  -- The second loop: the values of target variables are not escaped.
  unfoldable pub target_query : String → List Var → String
  target_query buf [] = buf
  target_query buf (v ∷ vs) =
      let rest =
        target_query (joined buf (concat (e.escape (e.var_name v)) (concat "=" v.value))) vs in
      if is_target v.type then rest else target_query buf vs

  unfoldable pub add_vars : Values → List Var → String
  unfolding add_sources count_sources count_targets target_query
  add_vars q vars =
      let raw = e.encode (add_sources q vars) in
      if eqb (count_targets vars) 0
      then raw
      else concat raw
          (concat (if eqb (count_sources vars) 0 then "?" else "&") (target_query "" vars))
