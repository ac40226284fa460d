-- ===== src/ClientOrg/Reconcile/Guards.antt =====
-- When the reconciler of client organizations leaves the cluster alone.
use grafana_tools.Base.{
  String, true, false, List, [], ◌∷◌, ◌≡◌, ◌≢◌, ◌⊎◌, inl, inr, refl, arith, index, eq_iff, ◌==◌,
  ◌||◌, ◌&&◌, Bool, not,
}
use grafana_tools.Kube.{Error, Reply}
use grafana_tools.Kube.Exec.{
  yields, ok, Outcome, ask-holds, pure, fail, branch, continue, look, ◌>>=◌,
}
use grafana_tools.Kube.Exec.Steps.{branch-holds, ask-bind}
use grafana_tools.ClientOrg.{Namespace, monitoring_namespace, cleaned_up_key}
use grafana_tools.ClientOrg.Reconcile.{
  Event, patched, add_finalizer, Env, label_of, org_id_of, set_up, is_active_client_org, reconcile,
  later, apply, route, serve, reconcile_ready,
}

differs : (a b : String) → (a == b) ≡ false → a ≢ b
differs a b e same = ground (arith, e, same, eq_iff a b)

module _ {R G P : Type 0} (env : Env R G P) where
  -- What a reconcile that changes something has read.
  abbrev pub IsDue : Type 0
  IsDue =
      (ns : Namespace) × (env.get [] ≡ yields ns)
      × (index ns.labels env.keys.client_org ≢ "")
      × (index ns.annotations env.keys.ace_org_id ≢ "")
      × (env.ready [] ≡ yields true)
      × ((ns.is_deleted ≡ true)
          ⊎ ((index ns.labels env.keys.client_org ≡ "terminating")
              ⊎ ((fresh : Namespace) × (env.fresh [] ≡ yields fresh)
                  × (fresh.is_deleted ≡ false)
                  × (index fresh.labels env.keys.client_org ≢ "")
                  × (index fresh.labels env.keys.client_org ≢ "terminating"))))

  unfoldable ChangesWhenDue : Outcome Reply × List (Event R G P) → Type 0
  ChangesWhenDue (o, []) = Unit
  ChangesWhenDue (o, e ∷ t) = IsDue

  due : IsDue → (r : Outcome Reply × List (Event R G P)) → ChangesWhenDue r
  unfolding ChangesWhenDue
  due d (o, []) = tt
  due d (o, e ∷ t) = d

  idle : (o : Outcome Reply) → ChangesWhenDue (o, [])
  unfolding ChangesWhenDue
  idle o = tt

  changed_due : (r : Outcome Reply × List (Event R G P)) → ChangesWhenDue r → r.1 ≢ [] → IsDue
  unfolding ChangesWhenDue
  changed_due (o, []) h changed = absurd (changed refl)
  changed_due (o, e ∷ t) h changed = h

  active :
      (ns : Namespace)
      → is_active_client_org env ns ≡ true
      → (ns.is_deleted ≡ false)
        × (index ns.labels env.keys.client_org ≢ "")
        × (index ns.labels env.keys.client_org ≢ "terminating")
  unfolding is_active_client_org
  active ns e =
      let label = index ns.labels env.keys.client_org in
      (
        ground (arith, e),
        differs label "" (ground (arith, e)),
        differs label "terminating" (ground (arith, e)),
      )

  module _ (ns : Namespace) (got : env.get [] ≡ yields ns)
      (named : index ns.labels env.keys.client_org ≢ "")
      (org : index ns.annotations env.keys.ace_org_id ≢ "")
      (ready : env.ready [] ≡ yields true) where
    serve-due : ChangesWhenDue (serve env ns [])
    unfolding serve pure
    serve-due =
        ask-holds ChangesWhenDue env.fresh _ _ [] (λ e failed. idle _)
          λ fresh read.
            branch-holds ChangesWhenDue (is_active_client_org env fresh) _ _ []
              (λ on.
                let (live, label, on_label) = active fresh on in
                due (ns, got, named, org, ready, inr (inr (fresh, read, live, label, on_label))) _)
              λ off. idle _

    route-due : ChangesWhenDue (route env ns [])
    unfolding route
    route-due =
        branch-holds ChangesWhenDue ns.is_deleted _ _ []
          (λ deleted. due (ns, got, named, org, ready, inl deleted) _)
          λ live.
            branch-holds ChangesWhenDue (label_of env ns == "terminating") _ _ []
              (λ label.
                due
                  (
                    ns,
                    got,
                    named,
                    org,
                    ready,
                    inr (inl ((eq_iff (label_of env ns) "terminating").0 label)),
                  )
                  _)
              λ other. serve-due

  module _ (ns : Namespace) (got : env.get [] ≡ yields ns)
      (named : index ns.labels env.keys.client_org ≢ "")
      (org : index ns.annotations env.keys.ace_org_id ≢ "") where
    detected-due :
        (is_ready refused : Bool) (e : Error)
        → env.ready [] ≡ yields is_ready
        → ChangesWhenDue
            (branch (not is_ready) (pure (later 30)) (branch refused (fail e) (route env ns)) [])
    unfolding pure fail branch
    detected-due false refused e read = idle _
    detected-due true true e read = idle _
    detected-due true false e read = route-due ns got named org read

    ready-due : ChangesWhenDue (reconcile_ready env ns [])
    unfolding reconcile_ready ◌>>=◌ continue look
    ready-due =
        ask-bind ChangesWhenDue env.ready _ [] (λ e failed. idle _)
          λ is_ready read. detected-due is_ready (env.rancher_managed [] && env.federated []) _ read

  reconcile-due : ChangesWhenDue (reconcile env [])
  unfolding reconcile pure
  reconcile-due =
      ask-holds ChangesWhenDue env.get _ _ [] (λ e failed. idle _)
        λ ns got.
          branch-holds ChangesWhenDue (label_of env ns == "" || org_id_of env ns == "") _ _ []
            (λ bare. idle _)
            λ marked.
              ready-due ns got (differs (label_of env ns) "" (ground (arith, marked)))
                (differs (org_id_of env ns) "" (ground (arith, marked)))

  -- A reconcile changes something only for a namespace that is found, with the label of a client
  -- organization and the id of its organization, and only while the detector is ready; and only when
  -- that namespace is deleted, or labelled as terminating, or when the API server shows it live, with a
  -- label that is neither empty nor terminating, whatever the cache shows.
  pub change-IsDue : (reconcile env []).1 ≢ [] → IsDue
  change-IsDue changed = changed_due (reconcile env []) reconcile-due changed

module _ {R G P : Type 0} (env : Env R G P) (ns : Namespace) where
  -- A client namespace that is labelled as terminating and marked as cleaned up is not torn down again:
  -- the reconcile changes nothing.
  pub cleaned_untouched :
      env.get [] ≡ yields ns
      → ns.is_deleted ≡ false
      → label_of env ns ≡ "terminating"
      → index ns.annotations cleaned_up_key ≡ "true"
      → (reconcile env []).1 ≡ []
  unfolding reconcile
  cleaned_untouched got live label marked = ground (
    arith,
    got,
    live,
    label,
    marked,
    eq_iff (label_of env ns) "terminating",
    eq_iff (index ns.annotations cleaned_up_key) "true",
  )

  -- While the monitoring namespace of an active client organization is being deleted, the reconcile
  -- only puts its finalizer in place: it registers and copies nothing.
  pub waits_for_deletion :
      (mon : Namespace)
      → ((t : List (Event R G P))
          → env.get_monitoring t (monitoring_namespace ns.name) ≡ yields mon)
      → mon.is_deleted ≡ true
      → env.patch [] ns (apply env add_finalizer) ≡ yields tt
      → set_up env ns [] ≡ (ok (later 10), patched add_finalizer (yields tt) ∷ [])
  unfolding set_up
  waits_for_deletion mon found deleted accepted =
      ground (arith, found [], found (patched add_finalizer (yields tt) ∷ []), deleted, accepted)
