-- ===== src/Watches/ServiceMonitors.antt =====
-- The watches of pkg/controllers/servicemonitor.
use grafana_tools.Base.{
  String, Bool, true, false, not, List, [], ◌∷◌, ◌++◌, ◌≡◌, refl, arith, ◌==◌, ◌&&◌, ◌||◌, Dict,
  contains, sym, ap, ◌∙◌, if◌then◌else◌,
}
use mathlib.Core.List.{append-nil, append_assoc}
use grafana_tools.Kube.{ObjectKey}
use grafana_tools.Kube.Exec.{Answer, yields, fails}
use grafana_tools.Watches.{Object, has_entry, keys_where, listed}

-- A service monitor, as to its namespace selector, and its selector as `LabelSelectorAsSelector` reads it.
pub record Monitor : Type 0 where
  pub key : ObjectKey
  pub any_namespace : Bool
  pub match_names : List String
  pub selector : Answer (Dict String → Bool)

-- The predicates for service monitors themselves; the texts are those of the library `mona`.
unfoldable pub is_watched : (prometheus_key value : String) → Object → Bool
unfolding has_entry
is_watched prometheus_key value obj = has_entry prometheus_key value obj.labels

-- `ServiceMonitorsForPrometheus`, over the service monitors with the label.
unfoldable pub for_prometheus : Answer (List ObjectKey) → List ObjectKey
for_prometheus monitors = listed (λ m. true) (λ m. m) monitors

module _ (service : Object) where
  abbrev pub reaches : Monitor → Bool
  reaches m = m.any_namespace || contains m.match_names service.key.namespace

  abbrev pub selects : Answer (Dict String → Bool) → Bool
  selects (fails e) = false
  selects (yields matches) = matches service.labels

  abbrev pub requested : Monitor → (Dict String → Bool) → List ObjectKey
  requested m matches = if matches service.labels then m.key ∷ [] else []

  abbrev pub extended :
      Monitor
      → Answer (Dict String → Bool)
      → (List ObjectKey → List ObjectKey)
      → List ObjectKey
      → List ObjectKey
  extended m (fails e) rest req = []
  extended m (yields matches) rest req = rest (req ++ requested m matches)

  -- The loop, with the requests so far: a selector that cannot be read ends it with none.
  unfoldable pub requests : List Monitor → List ObjectKey → List ObjectKey
  requests [] req = req
  requests (m ∷ ms) req =
      let rest = requests ms in if reaches m then extended m m.selector rest req else rest req

  -- `ServiceMonitorsForService`, over the federated service monitors.
  unfoldable pub for_service : Answer (List Monitor) → List ObjectKey
  unfolding requests
  for_service (fails e) = []
  for_service (yields ms) = requests ms []

  -- A monitor selects the namespaces that it names, or any.
  abbrev pub covers : (any : Bool) → List String → (namespace : String) → Bool
  covers true names namespace = true
  covers false [] namespace = false
  covers false (n ∷ ns) namespace = if n == namespace then true else covers false ns namespace

  abbrev pub is_near : Monitor → Bool
  is_near m = covers m.any_namespace m.match_names service.key.namespace

  covers-reaches :
      (any : Bool) (ns : List String) (n : String) → covers any ns n ≡ (any || contains ns n)
  covers-reaches true ns n = refl
  covers-reaches false [] n = refl
  covers-reaches false (x ∷ ns) n = ground (arith, covers-reaches false ns n)

  abbrev pub is_readable : Answer (Dict String → Bool) → Bool
  is_readable (fails e) = false
  is_readable (yields matches) = true

  -- Whether the selectors can be read of all that reach the namespace.
  abbrev pub all_readable : List Monitor → Bool
  all_readable [] = true
  all_readable (m ∷ ms) = (not (is_near m) || is_readable m.selector) && all_readable ms

  abbrev pub concerns : Monitor → Bool
  concerns m = is_near m && selects m.selector

  abbrev pub wanted : List Monitor → List ObjectKey → List ObjectKey
  wanted ms req = if all_readable ms then req ++ keys_where concerns (λ m. m.key) ms else []

  gathered :
      (selected readable : Bool) (k : ObjectKey) (req rest : List ObjectKey)
      → (if readable then (req ++ (if selected then k ∷ [] else [])) ++ rest else [])
        ≡ (if readable then req ++ (if selected then k ∷ rest else rest) else [])
  gathered selected false k req rest = refl
  gathered true true k req rest = append_assoc req (k ∷ []) rest
  gathered false true k req rest = ap (λ r. r ++ rest) (append-nil req)

  step :
      (reached : Bool) (sel : Answer (Dict String → Bool)) (m : Monitor) (ms : List Monitor)
      (req : List ObjectKey)
      → ((r : List ObjectKey) → requests ms r ≡ wanted ms r)
      → (if reached then extended m sel (requests ms) req else requests ms req) ≡ (
          if (not reached || is_readable sel) && all_readable ms
          then req
            ++ (if reached && selects sel
                then m.key ∷ keys_where concerns (λ x. x.key) ms
                else keys_where concerns (λ x. x.key) ms)
          else [])
  step false sel m ms req ih = ih req
  step true (fails e) m ms req ih = refl
  step true (yields matches) m ms req ih =
      ih (req ++ requested m matches)
      ∙ gathered (matches service.labels) (all_readable ms) m.key req
          (keys_where concerns (λ x. x.key) ms)

  requests_lem : (ms : List Monitor) (req : List ObjectKey) → requests ms req ≡ wanted ms req
  unfolding requests
  requests_lem [] req = sym (append-nil req)
  requests_lem (m ∷ ms) req =
      rw (sym (covers-reaches m.any_namespace m.match_names service.key.namespace))
        (step (is_near m) m.selector m ms req (requests_lem ms))

  -- For a changed service, the handler asks for the federated service monitors that reach its namespace and
  -- select its labels, in the order of the list, and for no others; but for none at all where the selector
  -- of any one that reaches the namespace cannot be read.
  pub for_service-concerns :
      (ms : List Monitor)
      → for_service (yields ms)
        ≡ (if all_readable ms then keys_where concerns (λ m. m.key) ms else [])
  unfolding for_service
  for_service-concerns ms = requests_lem ms []
