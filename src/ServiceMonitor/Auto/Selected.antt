-- ===== src/ServiceMonitor/Auto/Selected.antt =====
-- Service monitors that a Prometheus selects already.
use grafana_tools.Base.{
  String, Bool, true, false, Option, some, List, [], ◌∷◌, ◌≡◌, refl, sym, subst, arith, inl, inr,
  Dict, All,
}
use grafana_tools.Kube.{Reply}
use grafana_tools.Kube.Exec.{Answer, yields, Outcome, pure, ask-holds}
use grafana_tools.Kube.Exec.Steps.{ask-bind, branch-holds}
use grafana_tools.ServiceMonitor.Auto.{
  Selector, Prometheus, ServiceMonitor, Event, Env, matches, has_prom, unless_selected, among,
  process, selects,
}
use grafana_tools.ServiceMonitor.Auto.Labelled.{IsIn}

abbrev pub IsReadable : Selector → Type 0
IsReadable s = (labels : Dict String) → (b : Bool) × (matches s labels ≡ yields b)

abbrev pub AreReadable : Prometheus → Type 0
AreReadable p = IsReadable p.namespace_selector × IsReadable p.monitor_selector

abbrev pub Selects : Prometheus → Dict String → Dict String → Type 0
Selects p namespace labels =
    (matches p.namespace_selector namespace ≡ yields true)
    × (matches p.monitor_selector labels ≡ yields true)

selected_here :
    (q : Prometheus) (a b : Answer Bool) (rest : Answer (Option Prometheus))
    → a ≡ yields true
    → b ≡ yields true
    → selects q a b rest ≡ yields (some q)
selected_here q a b rest e f = rw (e, f) refl

selected_later :
    (q x : Prometheus) (a b : Bool) (rest : Answer (Option Prometheus))
    → rest ≡ yields (some x)
    → (y : Prometheus) × (selects q (yields a) (yields b) rest ≡ yields (some y))
selected_later q x true true rest e = (q, refl)
selected_later q x true false rest e = (x, e)
selected_later q x false b rest e = (x, e)

selected :
    (namespace labels : Dict String) (ps : List Prometheus) (p : Prometheus)
    → All AreReadable ps
    → IsIn p ps
    → Selects p namespace labels
    → (x : Prometheus) × (has_prom namespace labels ps ≡ yields (some x))
unfolding has_prom
selected namespace labels [] p readable h s = absurd h
selected namespace labels (q ∷ qs) p (readable, others) (inl same) s =
    let (a, b) : Selects q namespace labels =
      subst (λ r. Selects r namespace labels) (sym same) s in
    (q, selected_here q _ _ _ a b)
selected namespace labels (q ∷ qs) p ((ns, mon), others) (inr h) s =
    let (x, e) = selected namespace labels qs p others h s in
    let (a, ea) = ns namespace in
    let (b, eb) = mon labels in let (y, r) = selected_later q x a b _ e in (y, rw (ea, eb) r)

unfoldable pub IsUnchanged : Outcome Reply × List Event → Type 0
IsUnchanged r = r.1 ≡ []

unchanged : (o : Outcome Reply) → IsUnchanged (o, [])
unfolding IsUnchanged
unchanged o = refl

kept :
    (env : Env) (m : ServiceMonitor) (ps : List Prometheus) (found : Option Prometheus)
    (x : Prometheus)
    → found ≡ some x
    → IsUnchanged (unless_selected env m ps found [])
unfolding pure
kept env m ps found x e = rw e (unchanged _)

module _ (env : Env) (m : ServiceMonitor) (namespace : Dict String) where
  among-IsUnchanged :
      (ps : List Prometheus) (x : Prometheus)
      → env.namespace_labels [] m.key.namespace ≡ yields namespace
      → has_prom namespace m.labels ps ≡ yields (some x)
      → IsUnchanged (among env m ps [])
  unfolding among pure
  among-IsUnchanged [] x h e = unchanged _
  among-IsUnchanged (q ∷ qs) x h e =
      ask-bind IsUnchanged _ _ [] (λ z y. unchanged _)
        λ labels y.
          ask-bind IsUnchanged _ _ [] (λ z w. unchanged _)
            λ found w. kept env m (q ∷ qs) found x (ground (arith, h, e, y, w))

  -- A service monitor that one of the Prometheus objects listed selects already, by its namespace and by
  -- its labels, is left as it is, where the selectors of all of them can be read.
  pub selected-IsUnchanged :
      (ps : List Prometheus) (p : Prometheus)
      → env.list [] ≡ yields ps
      → env.namespace_labels [] m.key.namespace ≡ yields namespace
      → All AreReadable ps
      → IsIn p ps
      → Selects p namespace m.labels
      → IsUnchanged (process env m [])
  unfolding process pure
  selected-IsUnchanged ps p hl hn readable h s =
      let (x, e) = selected namespace m.labels ps p readable h s in
      ask-bind IsUnchanged _ _ [] (λ z y. unchanged _)
        λ ready y.
          branch-holds IsUnchanged _ _ _ []
            (λ c.
              branch-holds IsUnchanged _ _ _ []
                (λ d.
                  ask-holds IsUnchanged _ _ _ [] (λ z bad. unchanged _)
                    (λ qs same.
                      subst (λ rs. IsUnchanged (among env m rs [])) (ground (arith, hl, same))
                        (among-IsUnchanged ps x hn e)))
                (λ d. unchanged _))
            (λ c. unchanged _)
