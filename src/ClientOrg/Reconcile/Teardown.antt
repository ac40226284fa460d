-- ===== src/ClientOrg/Reconcile/Teardown.antt =====
-- What the teardown of a client organization does, and that it does it.
use grafana_tools.Base.{
  String, Bool, true, false, List, [], ◌∷◌, ◌≡◌, arith, ◌⊎◌, inl, inr, Bool-cases,
}
use grafana_tools.Kube.{done, is_not_found}
use grafana_tools.Kube.Exec.{Answer, yields, fails, ok}
use grafana_tools.ClientOrg.{Namespace, monitoring_namespace}
use grafana_tools.Hub.{Backend, grafana, perses}
use grafana_tools.ClientOrg.Reconcile.{
  Event, deleted_all, patched, release, mark_cleaned_up, Env, handle_deletion, tear_down, label_of,
  route,
}

-- The objects are gone: the deletion was accepted, or there was nothing to delete.
abbrev pub is_gone : Answer (Unit {0}) → Bool
is_gone (yields u) = true
is_gone (fails e) = is_not_found e

module _ {R G P : Type 0} where
  -- Before the finalizer was taken away, the copied dashboards of Grafana and those of Perses were
  -- deleted in the monitoring namespace, and nothing was made.
  abbrev pub CleanedFirst : Namespace → List (Event R G P) → Type 0
  CleanedFirst ns (patched release r ∷ deleted_all perses m a ∷ deleted_all grafana m' a' ∷ t) =
      (m ≡ monitoring_namespace ns.name)
      × (m' ≡ monitoring_namespace ns.name)
      × (is_gone a ≡ true)
      × (is_gone a' ≡ true)
  CleanedFirst ns (patched release r ∷ t) = ⊥
  CleanedFirst ns (patched mark_cleaned_up r ∷ patched release (yields u) ∷ t) =
      CleanedFirst ns (patched release (yields u) ∷ t)
  CleanedFirst ns (patched mark_cleaned_up r ∷ t) = ⊥
  CleanedFirst ns (deleted_all b m a ∷ t) = Unit
  CleanedFirst ns [] = Unit
  CleanedFirst ns _ = ⊥

module _ {R G P : Type 0} (env : Env R G P) (ns : Namespace) where
  deletion_cleans : CleanedFirst ns (handle_deletion env ns []).1
  unfolding handle_deletion is_not_found
  deletion_cleans = ground arith

  labelled_cleans : CleanedFirst ns (tear_down env ns []).1
  unfolding tear_down handle_deletion is_not_found
  labelled_cleans = ground arith

  routes_deleted : ns.is_deleted ≡ true → route env ns [] ≡ handle_deletion env ns []
  unfolding route
  routes_deleted e = rw e

  routes_labelled :
      ns.is_deleted ≡ false
      → label_of env ns ≡ "terminating"
      → route env ns [] ≡ tear_down env ns []
  unfolding route
  routes_labelled e h = rw (e, h)

  -- Whatever the environment answers, when a client namespace is deleted or labelled as terminating,
  -- its finalizer is taken away only when both kinds of copied dashboards are gone from its monitoring
  -- namespace, just before, and it is marked as cleaned up only after that patch has succeeded.
  pub teardown-CleanedFirst :
      (ns.is_deleted ≡ true) ⊎ (label_of env ns ≡ "terminating")
      → CleanedFirst ns (route env ns []).1
  teardown-CleanedFirst h = elim (Bool-cases ns.is_deleted) [
    | inl e ↦ rw (routes_deleted e) deletion_cleans
    | inr e ↦ rw (routes_labelled e (ground (arith, h, e))) labelled_cleans
  ]

  -- A teardown does not wait for the hub: when the cluster deletes the copies, or has none, and accepts
  -- the patch, it ends well whatever the hub answers.
  pub teardown_completes :
      ((t : List (Event R G P)) (b : Backend) (m : String) → is_gone (env.delete_all t b m) ≡ true)
      → ((t : List (Event R G P)) (n : Namespace) (f : Namespace → Namespace)
          → env.patch t n f ≡ yields tt)
      → (handle_deletion env ns []).0 ≡ ok done
  unfolding handle_deletion is_not_found
  teardown_completes gone accepted = grind arith
