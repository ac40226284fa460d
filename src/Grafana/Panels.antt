-- ===== src/Grafana/Panels.antt =====
-- The JSON part of grafanadashboard_controller.go: `addDashboardID`, `getUpdatedPanels` and
-- `replaceDatasource`.
pub mod Repeat
pub mod Replace
use grafana_tools.Base.{
  String, ℕ, Bool, true, false, not, Option, none, some, ◌&&◌, ◌==◌, if◌then◌else◌,
}
use grafana_tools.Kube.{Error}
use grafana_tools.Kube.Exec.{Answer, yields, fails, Outcome, ok, err, panic}
use grafana_tools.Json.{
  Value, null, flag, number, text, array, object, Items, no_items, item, Fields, no_fields, field,
  Raw, get, put, decode, encode,
}

-- `addDashboardID`; a write to the nil map that `null` decodes to panics.
unfoldable pub add_dashboard_id : Raw → ℕ → String → Outcome Raw
unfolding decode encode
add_dashboard_id model id uid = elim (decode model) [
  | fails e ↦ err e
  | yields none ↦ panic "assignment to entry in nil map"
  | yields (some val) ↦ ok (encode (put "uid" (text uid) (put "id" (number id) val)))
]

abbrev pub is_true : Option Value → Bool
is_true (some (flag b)) = b
is_true _ = false

-- A panel with its datasource set; the nested panels, changed, are put back if it is collapsed.
unfoldable pub update_panel : String → Fields → Option Items → Fields
update_panel ds panel nested =
    let panel1 = put "datasource" (text ds) panel in
    if is_true (get "collapsed" panel1)
    then elim nested [ none ↦ panel1 | some ps ↦ put "panels" (array ps) panel1 ]
    else panel1

-- `getUpdatedPanels`. `nested_panels` is the recursive call on the member `panels`, where that is an
-- array; setting the datasource leaves this member alone.
unfoldable mutual
  pub updated_panels : String → Items → Items
  updated_panels ds no_items = no_items
  updated_panels ds (item (object panel) r) =
      item (object (update_panel ds panel (nested_panels ds panel))) (updated_panels ds r)
  updated_panels ds (item _ r) = updated_panels ds r

  pub nested_panels : String → Fields → Option Items
  nested_panels ds no_fields = none
  nested_panels ds (field k (array xs) fs) =
      if k == "panels" then some (updated_panels ds xs) else nested_panels ds fs
  nested_panels ds (field k _ fs) = if k == "panels" then none else nested_panels ds fs

-- The loop over the templating variables: those that are objects with a text for their type are kept,
-- with their datasource set, unless they are datasource variables.
abbrev pub keep_var : String → Fields → Option Value → Items → Items
keep_var ds v (some (text ty)) rest =
    if not (ty == "datasource") then item (object (put "datasource" (text ds) v)) rest else rest
keep_var ds v _ rest = rest

unfoldable pub updated_vars : String → Items → Items
updated_vars ds no_items = no_items
updated_vars ds (item (object v) r) = keep_var ds v (get "type" v) (updated_vars ds r)
updated_vars ds (item _ r) = updated_vars ds r

-- A nil slice is encoded as `null`.
abbrev pub slice : Items → Value
slice no_items = null
slice xs = array xs

abbrev pub set_list : String → Fields → Fields → Option Value → Fields
set_list ds val tl (some (array vars)) =
    put "templating" (object (put "list" (slice (updated_vars ds vars)) tl)) val
set_list ds val tl _ = val

abbrev pub templating : String → Fields → Option Value → Fields
templating ds val (some (object tl)) = set_list ds val tl (get "list" tl)
templating ds val _ = val

abbrev pub replace_in : String → Raw → Fields → Option Value → Raw
replace_in ds model val (some (array panels)) =
    let val1 = put "panels" (array (updated_panels ds panels)) val in
    encode (templating ds val1 (get "templating" val1))
replace_in ds model val _ = model

abbrev pub replaced : String → Raw → Answer (Option Fields) → Answer Raw
replaced ds model (fails e) = fails e
replaced ds model (yields none) = yields model
replaced ds model (yields (some val)) = yields (replace_in ds model val (get "panels" val))

-- `replaceDatasource`; a read of the nil map finds nothing.
unfoldable pub replace_datasource : Raw → String → Answer Raw
unfolding decode encode updated_panels updated_vars
replace_datasource model ds = replaced ds model (decode model)
