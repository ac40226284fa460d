-- ===== src/Watches/Settings.antt =====
-- The watches of the builder of pkg/grafana/builder.go, of the Alertmanager and of the Prometheus.
use grafana_tools.Base.{
  String, Bool, true, false, not, Option, none, some, List, [], ◌∷◌, ◌++◌, ◌≡◌, refl, ap, arith,
  ◌&&◌, ◌||◌, ◌==◌, eq_iff, Bool-cases, inl, inr,
}
use grafana_tools.Kube.{ObjectKey, key_eq}
use grafana_tools.Kube.Exec.{Answer, yields}
use grafana_tools.Alertmanager.Reconcile.{inbox_group}
use grafana_tools.Watches.{Object, has_entry, keys_where, listed}

-- An AppBinding, as to the names of its secrets.
pub record App : Type 0 where
  pub key : ObjectKey
  pub secret : Option String
  pub tls_secret : Option String

-- The predicate by which `Setup` watches AppBindings, those of its index; `default_key` is
-- `mona.DefaultGrafanaKey`.
unfoldable pub is_watched : (default_key : String) → Object → Bool
unfolding has_entry
is_watched default_key obj = has_entry default_key "true" obj.annotations

abbrev pub is_named : String → Option String → Bool
is_named name none = false
is_named name (some n) = n == name

abbrev pub uses : ObjectKey → App → Bool
uses secret app =
    app.key.namespace == secret.namespace
    && (is_named secret.name app.secret || is_named secret.name app.tls_secret)

-- The handler for secrets of `Setup`, over the AppBindings in the index.
unfoldable pub for_secret : ObjectKey → Answer (List App) → List ObjectKey
for_secret secret apps = listed (uses secret) (λ app. app.key) apps

-- The handler `stateHandler`, for Alertmanagers and for Prometheus objects: all that are listed.
unfoldable pub for_state : Answer (List ObjectKey) → List ObjectKey
for_state objects = listed (λ o. true) (λ o. o) objects

-- The predicate for the API services, by their group.
unfoldable pub is_inbox : (group : String) → Bool
is_inbox group = group == inbox_group

-- The predicates for the ConfigMap of the platform and for the secret of Rancher, which is watched only
-- when it has a name.
unfoldable pub is_state : (info secret : ObjectKey) → (is_secret : Bool) → ObjectKey → Bool
is_state info secret false k = key_eq k info
is_state info secret true k = not (secret.name == "") && key_eq k secret

keys_where-append :
    {A : Type 0} (wanted : A → Bool) (key : A → ObjectKey) (xs ys : List A)
    → keys_where wanted key (xs ++ ys) ≡ keys_where wanted key xs ++ keys_where wanted key ys
keys_where-append wanted key [] ys = refl
keys_where-append wanted key (x ∷ xs) ys = elim (Bool-cases (wanted x)) [
  | inl e ↦ rw e (ap (◌∷◌ (key x)) (keys_where-append wanted key xs ys))
  | inr e ↦ rw e (keys_where-append wanted key xs ys)
]

-- A change of the secret that the builder reads for an AppBinding of the index leads to a reconcile of that
-- AppBinding, wherever it stands among the others.
pub secret-IsFollowed :
    (before after : List App) (app : App) (name : String)
    → app.secret ≡ some name
    → let k : ObjectKey = record { namespace = app.key.namespace; name = name } in
      for_secret k (yields (before ++ app ∷ after))
      ≡ for_secret k (yields before) ++ app.key ∷ for_secret k (yields after)
unfolding for_secret
secret-IsFollowed before after app name named =
    let k : ObjectKey = record { namespace = app.key.namespace; name = name } in
    let used : uses k app ≡ true =
      ground (arith, named, eq_iff name name, eq_iff app.key.namespace app.key.namespace) in
    rw (keys_where-append (uses k) (λ x. x.key) before (app ∷ after), used) refl
