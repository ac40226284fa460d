-- ===== src/ServiceMonitor/Auto/Labelled.antt =====
-- What the reconciler of service monitors does to them.
use grafana_tools.Base.{
  String, Bool, true, false, Option, none, some, List, [], ◌∷◌, ◌≡◌, refl, ◌∙◌, subst, arith, ◌⊎◌,
  inl, inr, ◌==◌, Dict, Bool-cases, ap, if◌then◌else◌,
}
use grafana_tools.Kube.{ObjectKey, key_eq, Reply, done}
use grafana_tools.Kube.Exec.{Answer, yields, fails, Outcome, ok, err, pure, ◌>>=◌, ask-holds}
use grafana_tools.Kube.Exec.Steps.{ask-bind, look-bind, branch-holds}
use grafana_tools.ServiceMonitor.Order.{is_before, insert, sorted}
use grafana_tools.ServiceMonitor.Auto.{
  Prometheus, ServiceMonitor, Event, labelled, Env, with_key, at_key, matches, find_system,
  find_project, default_of, update_labels, update_for, for_project, for_system, on_rancher,
  assign_prometheus, unless_selected, among, process, chosen,
}

abbrev pub IsIn : Prometheus → List Prometheus → Type 0
IsIn p [] = ⊥
IsIn p (q ∷ qs) = (q ≡ p) ⊎ IsIn p qs

-- At most one call changes something: the labels of the service monitor, for one of the list; the
-- outcome is that of the call.
unfoldable pub IsLabelled : List Prometheus → Outcome Reply × List Event → Type 0
IsLabelled ps (o, []) = Unit
IsLabelled ps (o, labelled p (yields u) ∷ []) = IsIn p ps × (o ≡ ok done)
IsLabelled ps (o, labelled p (fails e) ∷ []) = IsIn p ps × (o ≡ err e)
IsLabelled ps (o, _) = ⊥

keyed : (k : ObjectKey) (ps : List Prometheus) (p : Prometheus) → with_key k ps ≡ some p → IsIn p ps
keyed k [] p e = ground (arith, e)
keyed k (q ∷ qs) p e = elim (Bool-cases (key_eq q.key k)) [
  | inl h ↦ inl (ground (arith, h, e))
  | inr h ↦ inr (keyed k qs p (ground (arith, h, e)))
]

at_keyed :
    (k : Option ObjectKey) (ps : List Prometheus) (p : Prometheus)
    → at_key k ps ≡ some p
    → IsIn p ps
at_keyed none ps p e = ground (arith, e)
at_keyed (some k) ps p e = keyed k ps p e

of_system :
    (ns : String) (ps : List Prometheus) (p : Prometheus) → find_system ns ps ≡ some p → IsIn p ps
unfolding find_system
of_system ns [] p e = ground (arith, e)
of_system ns (q ∷ qs) p e = elim (Bool-cases (q.key.namespace == ns)) [
  | inl h ↦ inl (ground (arith, h, e))
  | inr h ↦ inr (of_system ns qs p (ground (arith, h, e)))
]

of_choice :
    (q : Prometheus) (m : Answer Bool) (rest : Answer (Option Prometheus)) (p : Prometheus)
    → chosen q m rest ≡ yields (some p)
    → (q ≡ p) ⊎ (rest ≡ yields (some p))
of_choice q (yields true) rest p e = inl (ground (arith, e))
of_choice q (yields false) rest p e = inr e
of_choice q (fails x) rest p e = ground (arith, e)

of_project :
    (system : String) (project : Dict String) (ps : List Prometheus) (p : Prometheus)
    → find_project system project ps ≡ yields (some p)
    → IsIn p ps
unfolding find_project
of_project system project [] p e = ground (arith, e)
of_project system project (q ∷ qs) p e = elim (Bool-cases (q.key.namespace == system)) [
  | inl h ↦ inr (of_project system project qs p (ground (arith, h, e)))
  | inr h ↦
      elim (of_choice q (matches q.namespace_selector project) (find_project system project qs) p
        (ground (arith, h, e))) [
          | inl same ↦ inl same
          | inr later ↦ inr (of_project system project qs p later)
        ]
]

abbrev by_key : Prometheus → ObjectKey
by_key p = p.key

placed :
    (first : Bool) (q r : Prometheus) (rs more : List Prometheus) (p : Prometheus)
    → (IsIn p more → (q ≡ p) ⊎ IsIn p rs)
    → IsIn p (if first then r ∷ more else q ∷ r ∷ rs)
    → (q ≡ p) ⊎ IsIn p (r ∷ rs)
placed true q r rs more p f (inl e) = inr (inl e)
placed true q r rs more p f (inr h) = elim (f h) [ inl e ↦ inl e | inr later ↦ inr (inr later) ]
placed false q r rs more p f h = h

inserted :
    (q : Prometheus) (ps : List Prometheus) (p : Prometheus)
    → IsIn p (insert by_key q ps)
    → (q ≡ p) ⊎ IsIn p ps
unfolding insert
inserted q [] p h = h
inserted q (r ∷ rs) p h =
    placed (is_before r.key q.key) q r rs (insert by_key q rs) p (inserted q rs p) h

of_sorted : (ps : List Prometheus) (p : Prometheus) → IsIn p (sorted by_key ps) → IsIn p ps
unfolding sorted
of_sorted [] p h = h
of_sorted (q ∷ qs) p h = elim (inserted q (sorted by_key qs) p h) [
  | inl e ↦ inl e
  | inr later ↦ inr (of_sorted qs p later)
]

module _ (env : Env) (m : ServiceMonitor) (ps : List Prometheus) where
  abbrev P : Outcome Reply × List Event → Type 0
  P = IsLabelled ps

  -- With nothing changed so far, any end will do.
  ended : (o : Outcome Reply) → P (o, [])
  unfolding IsLabelled
  ended o = tt

  updated : (p : Prometheus) → IsIn p ps → P (update_labels env p m [])
  unfolding update_labels ◌>>=◌ IsLabelled
  updated p h = ground (arith, h)

  updated_for :
      (o : Option Prometheus)
      → ((p : Prometheus) → o ≡ some p → IsIn p ps)
      → P (update_for env o m [])
  unfolding pure
  updated_for none h = ended (ok done)
  updated_for (some p) h = updated p (h p refl)

  for_project-IsLabelled :
      (qs : List Prometheus)
      → ((p : Prometheus) → IsIn p qs → IsIn p ps)
      → P (for_project env m qs [])
  unfolding for_project pure
  for_project-IsLabelled qs sub =
      ask-bind P _ _ [] (λ e x. ended _)
        λ labels x.
          branch-holds P _ _ _ [] (λ c. ended _)
            λ c.
              ask-bind P _ _ [] (λ e y. ended _)
                λ o y. updated_for o λ p e. sub p (of_project _ _ qs p (y ∙ ap yields e))

  for_system-IsLabelled :
      (o : Option Prometheus) (qs : List Prometheus)
      → ((p : Prometheus) → o ≡ some p → IsIn p ps)
      → ((p : Prometheus) → IsIn p qs → IsIn p ps)
      → P (for_system env o m qs [])
  for_system-IsLabelled none qs h sub = for_project-IsLabelled qs sub
  for_system-IsLabelled (some p) qs h sub = updated p (h p refl)

  on_rancher-IsLabelled :
      (qs : List Prometheus)
      → ((p : Prometheus) → IsIn p qs → IsIn p ps)
      → P (on_rancher env m qs [])
  unfolding on_rancher pure
  on_rancher-IsLabelled qs sub =
      ask-holds P _ _ _ [] (λ e x. ended _)
        λ project x. look-bind P _ _ [] (
          branch-holds P _ _ _ []
            (λ c. for_system-IsLabelled _ qs (λ p e. sub p (of_system _ qs p e)) sub)
            (λ c. for_project-IsLabelled qs sub))

  assign-IsLabelled :
      (qs : List Prometheus)
      → ((p : Prometheus) → IsIn p qs → IsIn p ps)
      → P (assign_prometheus env m qs [])
  unfolding assign_prometheus default_of
  assign-IsLabelled qs sub =
      branch-holds P _ _ _ [] (λ c. updated_for _ λ p e. sub p (at_keyed _ qs p e))
        (λ c. on_rancher-IsLabelled qs sub)

  unless-IsLabelled : (found : Option Prometheus) → P (unless_selected env m ps found [])
  unfolding pure
  unless-IsLabelled none = assign-IsLabelled (sorted by_key ps) (of_sorted ps)
  unless-IsLabelled (some p) = ended _

among-IsLabelled :
    (env : Env) (m : ServiceMonitor) (ps : List Prometheus) → IsLabelled ps (among env m ps [])
unfolding among pure
among-IsLabelled env m [] = ended env m [] _
among-IsLabelled env m (p ∷ ps) =
    let P = IsLabelled (p ∷ ps) in
    ask-bind P _ _ [] (λ e x. ended env m (p ∷ ps) _)
      λ labels x.
        ask-bind P _ _ [] (λ e y. ended env m (p ∷ ps) _)
          λ found y. unless-IsLabelled env m (p ∷ ps) found

-- Whatever the environment answers, a run for a service monitor changes nothing, or overwrites its labels
-- once, for one of the Prometheus objects listed, and then ends as that call did.
pub process-IsLabelled :
    (env : Env) (m : ServiceMonitor) (ps : List Prometheus)
    → env.list [] ≡ yields ps
    → IsLabelled ps (process env m [])
unfolding process pure
process-IsLabelled env m ps h =
    let P = IsLabelled ps in
    ask-bind P _ _ [] (λ e x. ended env m ps _)
      λ ready x.
        branch-holds P _ _ _ []
          (λ c.
            branch-holds P _ _ _ []
              (λ d.
                ask-holds P _ _ _ [] (λ e bad. ended env m ps _)
                  (λ qs same.
                    subst (λ rs. P (among env m rs [])) (ground (arith, h, same))
                      (among-IsLabelled env m ps)))
              (λ d. ended env m ps _))
          (λ c. ended env m ps _)
