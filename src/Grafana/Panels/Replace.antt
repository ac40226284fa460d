-- ===== src/Grafana/Panels/Replace.antt =====
-- What `replaceDatasource` and `addDashboardID` leave as it was, and what they set.
use grafana_tools.Base.{
  String, ℕ, Option, none, some, ◌≡◌, ◌≢◌, refl, ap, subst, ◌∙◌, inl, inr, Bool-cases, arith, ◌==◌,
  eq_iff,
}
use grafana_tools.Kube.Exec.{Answer, yields, fails, Outcome, ok, err, panic}
use grafana_tools.Json.{
  Value, number, text, array, object, Items, no_items, item, no_fields, Fields, Raw, get, put,
  decode, encode,
}
use grafana_tools.Json.Members.{get-put}
use grafana_tools.Grafana.Panels.{
  add_dashboard_id, updated_panels, updated_vars, keep_var, set_list, templating, replace_in,
  replaced, replace_datasource,
}

-- Every variable is an object whose type is a text other than `datasource`, and names `ds` as its
-- datasource.
abbrev pub AllVars : String → Items → Type 0
AllVars ds no_items = Unit
AllVars ds (item (object v) r) =
    (ty : String) × (get "type" v ≡ some (text ty))
    × (ty ≢ "datasource")
    × (get "datasource" v ≡ some (text ds))
    × AllVars ds r
AllVars ds (item _ r) = ⊥

keep_var-AllVars :
    (ds : String) (v : Fields) (o : Option Value) (rest : Items)
    → get "type" v ≡ o
    → AllVars ds rest
    → AllVars ds (keep_var ds v o rest)
keep_var-AllVars ds v (some (text ty)) rest e h = elim (Bool-cases (ty == "datasource")) [
  | inl is_ds ↦ rw is_ds h
  | inr not_ds ↦ rw not_ds (
    ty,
    get-put "datasource" "type" (text ds) v ∙ e,
    ground (arith, eq_iff ty "datasource"),
    get-put "datasource" "datasource" (text ds) v,
    h,
  )
]
keep_var-AllVars ds v _ rest e h = h

-- The variables that are kept are no datasource variables, and all read from the given datasource.
pub updated_vars-AllVars : (ds : String) (xs : Items) → AllVars ds (updated_vars ds xs)
unfolding updated_vars
updated_vars-AllVars ds no_items = tt
updated_vars-AllVars ds (item (object v) r) =
    keep_var-AllVars ds v (get "type" v) (updated_vars ds r) refl (updated_vars-AllVars ds r)
updated_vars-AllVars ds (item _ r) = updated_vars-AllVars ds r

yields-injective : {a b : Raw} → yields a ≡ yields b → a ≡ b
yields-injective e = cc

-- The members of an encoded object; none for anything else.
abbrev pub members_of : Answer (Option Fields) → Fields
members_of (yields (some fs)) = fs
members_of _ = no_fields

abbrev pub members : Raw → Fields
members model = members_of (decode model)

get-put_ne : (k j : String) (v : Value) (fs : Fields) → k ≢ j → get k (put j v fs) ≡ get k fs
get-put_ne k j v fs ne = ground (arith, get-put j k v fs, eq_iff j k)

module _ (ds k : String) (not_templating : k ≢ "templating") where
  get-set_list : (val tl : Fields) (o : Option Value) → get k (set_list ds val tl o) ≡ get k val
  get-set_list val tl (some (array vars)) = get-put_ne k "templating" _ val not_templating
  get-set_list val tl _ = refl

  get-templating : (val : Fields) (o : Option Value) → get k (templating ds val o) ≡ get k val
  get-templating val (some (object tl)) = get-set_list val tl (get "list" tl)
  get-templating val _ = refl

  module _ (not_panels : k ≢ "panels") (model : Raw) where
    get-replace_in :
        (val : Fields) (o : Option Value)
        → get k val ≡ get k (members model)
        → get k (members (replace_in ds model val o)) ≡ get k (members model)
    unfolding decode encode
    get-replace_in val (some (array panels)) same =
        let val1 = put "panels" (array (updated_panels ds panels)) val in
        get-templating val1 (get "templating" val1) ∙ get-put_ne k "panels" _ val not_panels ∙ same
    get-replace_in val _ same = refl

    get-replaced :
        (model' : Raw) (r : Answer (Option Fields))
        → decode model ≡ r
        → replaced ds model r ≡ yields model'
        → get k (members model') ≡ get k (members model)
    get-replaced model' (fails x) d e = cc
    get-replaced model' (yields none) d e = ap (λ (m : Raw). get k (members m)) (cc)
    get-replaced model' (yields (some val)) d e =
        subst (λ (m : Raw). get k (members m) ≡ get k (members model)) (yields-injective e)
          (get-replace_in val (get "panels" val) (rw d))

-- `replaceDatasource` changes no member of the dashboard but `panels` and `templating`.
pub get-replace_datasource :
    (model model' : Raw) (ds k : String)
    → replace_datasource model ds ≡ yields model'
    → k ≢ "panels"
    → k ≢ "templating"
    → get k (members model') ≡ get k (members model)
unfolding replace_datasource
get-replace_datasource model model' ds k e not_panels not_templating =
    get-replaced ds k not_templating not_panels model model' (decode model) refl e

ok-injective : {a b : Raw} → Outcome.ok a ≡ ok b → a ≡ b
ok-injective e = cc

-- A model to which an id and a uid were added holds both.
pub get-add_dashboard_id :
    (model m : Raw) (id : ℕ) (uid : String)
    → add_dashboard_id model id uid ≡ ok m
    → (get "id" (members m) ≡ some (number id)) × (get "uid" (members m) ≡ some (text uid))
unfolding add_dashboard_id
get-add_dashboard_id model m id uid e = identified (decode model) e
  where
    written : (val : Fields) → Fields
    written val = put "uid" (text uid) (put "id" (number id) val)

    identified :
        (r : Answer (Option Fields))
        → elim r [
          | fails e' ↦ err e'
          | yields none ↦ panic "assignment to entry in nil map"
          | yields (some val) ↦ ok (encode (written val))
        ]
          ≡ ok m
        → (get "id" (members m) ≡ some (number id)) × (get "uid" (members m) ≡ some (text uid))
    identified (fails x) h = cc
    identified (yields none) h = cc
    identified (yields (some val)) h =
        subst
          (λ (r : Raw).
            (get "id" (members r) ≡ some (number id)) × (get "uid" (members r) ≡ some (text uid)))
          (ok-injective h)
          (
            get-put "uid" "id" (text uid) (put "id" (number id) val)
                ∙ get-put "id" "id" (number id) val,
            get-put "uid" "uid" (text uid) (put "id" (number id) val),
          )
