-- ===== src/Grafana/Panels/Repeat.antt =====
-- Setting the datasource of a dashboard's panels again and again.
use grafana_tools.Base.{
  String, Option, none, some, Bool-cases, inl, inr, ◌≡◌, refl, sym, ap, arith, ◌==◌, eq_iff,
  if◌then◌else◌,
}
use grafana_tools.Json.{
  Value, text, array, object, Items, no_items, item, Fields, no_fields, field, get, put,
}
use grafana_tools.Json.Members.{get-put, put-put, put_comm}
use grafana_tools.Grafana.Panels.{update_panel, updated_panels, nested_panels}

-- A member as the walk over the members reads it.
member : String → Value → Option Items
member ds (array xs) = some (updated_panels ds xs)
member ds _ = none

nested-field :
    (ds k : String) (v : Value) (fs : Fields)
    → nested_panels ds (field k v fs) ≡ (if k == "panels" then member ds v else nested_panels ds fs)
unfolding nested_panels member
nested-field ds k (array xs) fs = refl
nested-field ds k _ fs = refl

nested-put :
    (ds k : String) (v : Value) (fs : Fields)
    → nested_panels ds (put k v fs) ≡ (if k == "panels" then member ds v else nested_panels ds fs)
unfolding put
nested-put ds k v no_fields = nested-field ds k v no_fields
nested-put ds k v (field i w fs) = ground (
  arith,
  nested-field ds k v fs,
  nested-field ds i w fs,
  nested-field ds i w (put k v fs),
  nested-put ds k v fs,
  eq_iff i k,
  eq_iff i "panels",
  eq_iff k "panels",
)

nested-put_datasource :
    (ds : String) (v : Value) (fs : Fields)
    → nested_panels ds (put "datasource" v fs) ≡ nested_panels ds fs
nested-put_datasource ds v fs = nested-put ds "datasource" v fs

nested-put_panels :
    (ds : String) (ps : Items) (fs : Fields)
    → nested_panels ds (put "panels" (array ps) fs) ≡ some (updated_panels ds ps)
unfolding member
nested-put_panels ds ps fs = nested-put ds "panels" (array ps) fs

-- The nested panels after one more pass over those of an earlier pass.
abbrev Again : String → Option Items → Option Items → Type 0
Again ds none o = o ≡ none
Again ds (some ps) o = o ≡ some (updated_panels ds ps)

get-put_datasource :
    (k ds : String) (fs : Fields)
    → get k (put "datasource" (text ds) fs)
      ≡ (if "datasource" == k then some (text ds) else get k fs)
get-put_datasource k ds fs = get-put "datasource" k (text ds) fs

module _ (ds ds' : String) (panel : Fields) where
  update_twice :
      (o' : Option Items)
      → Again ds o' (nested_panels ds panel)
      → update_panel ds (update_panel ds' panel o') (nested_panels ds (update_panel ds' panel o'))
        ≡ update_panel ds panel (nested_panels ds panel)
  unfolding update_panel
  update_twice none h = ground (
    arith,
    get-put "datasource" "collapsed" (text ds) panel,
    get-put "datasource" "collapsed" (text ds') panel,
    get-put "datasource" "collapsed" (text ds) (put "datasource" (text ds') panel),
    put-put "datasource" (text ds) (text ds') panel,
    nested-put_datasource ds (text ds') panel,
  )
  update_twice (some ps) h = ground (
    arith,
    get-put "datasource" "collapsed" (text ds) panel,
    get-put "datasource" "collapsed" (text ds') panel,
    get-put "datasource" "collapsed" (text ds) (put "datasource" (text ds') panel),
    get-put "datasource" "collapsed" (text ds)
        (put "panels" (array ps) (put "datasource" (text ds') panel)),
    get-put "panels" "collapsed" (array ps) (put "datasource" (text ds') panel),
    put-put "datasource" (text ds) (text ds') panel,
    put-put "panels" (array (updated_panels ds ps)) (array ps) (put "datasource" (text ds) panel),
    put_comm "datasource" "panels" (text ds) (array ps) (text ds')
        (put "datasource" (text ds') panel) refl
        (get-put "datasource" "datasource" (text ds') panel),
    nested-put_datasource ds (text ds') panel,
    nested-put_panels ds ps (put "datasource" (text ds') panel),
  )

mutual
  unfolding updated_panels nested_panels

  panels_twice :
      (ds ds' : String) (xs : Items)
      → updated_panels ds (updated_panels ds' xs) ≡ updated_panels ds xs
  panels_twice ds ds' no_items = refl
  panels_twice ds ds' (item (object panel) r) = cc (
    update_twice ds ds' panel (nested_panels ds' panel) (nested_twice ds ds' panel),
    panels_twice ds ds' r,
  )
  panels_twice ds ds' (item _ r) = panels_twice ds ds' r

  nested_twice :
      (ds ds' : String) (fs : Fields) → Again ds (nested_panels ds' fs) (nested_panels ds fs)
  nested_twice ds ds' no_fields = refl
  nested_twice ds ds' (field k (array xs) fs) = elim (Bool-cases (k == "panels")) [
    | inl e ↦ rw e (ap some (sym (panels_twice ds ds' xs)))
    | inr e ↦ rw e (nested_twice ds ds' fs)
  ]
  nested_twice ds ds' (field k _ fs) = elim (Bool-cases (k == "panels")) [
    | inl e ↦ rw e
    | inr e ↦ rw e (nested_twice ds ds' fs)
  ]

-- Setting the datasource of all panels, nested ones included, after it was set to anything else, has
-- the effect of setting it once.
pub updated_panels_last :
    (ds ds' : String) (xs : Items)
    → updated_panels ds (updated_panels ds' xs) ≡ updated_panels ds xs
updated_panels_last ds ds' xs = panels_twice ds ds' xs
