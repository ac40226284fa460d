-- ===== src/ClientOrg/Markers.antt =====
-- When a client organization counts as registered.
use grafana_tools.Base.{
  String, ℕ, Bool, true, false, not, List, [], ◌∷◌, ◌≡◌, ◌≢◌, ◌++◌, ◌&&◌, is_empty, sym, subst, ◌∙◌,
  arith, ◌||◌, ◌+◌, refl, index-assign, lookup-assign, assign-same, assign, eq_iff,
}
use grafana_tools.Kube.{Error}
use grafana_tools.Kube.Exec.{
  Answer, yields, fails, Outcome, ok, err, panic, Exec, branch, attempt, pure, fail, check_ok,
  ◌>>=◌,
}
use grafana_tools.ClientOrg.{Namespace}
use grafana_tools.Hub.{Backend, grafana, perses}
use grafana_tools.ClientOrg.Backends.{
  Event, registered, wrote_binding, stamped, Env, is_stale, set_namespace_marker, report,
  register_backends, with_marker, refresh, register_grafana_backend, register_perses_backend,
}

abbrev other_of : Backend → Backend
other_of grafana = perses
other_of perses = grafana

module _ {R : Type 0} where
  -- A refresh that had an error wrote down the failing call; one that had none left both calls done,
  -- or made no call.
  abbrev pub failures : Backend → List (Event R) → Bool
  failures b [] = false
  failures grafana (registered grafana (fails e) ∷ t) = true
  failures perses (registered perses (fails e) ∷ t) = true
  failures grafana (wrote_binding grafana r (fails e) ∷ t) = true
  failures perses (wrote_binding perses r (fails e) ∷ t) = true
  failures b (_ ∷ t) = failures b t

  abbrev pub is_stamped : List (Event R) → Bool
  is_stamped [] = false
  is_stamped (stamped s a ∷ t) = true
  is_stamped (_ ∷ t) = is_stamped t

  abbrev pub attempts : Backend → List (Event R) → ℕ
  attempts b [] = 0
  attempts grafana (registered grafana a ∷ t) = attempts grafana t + 1
  attempts perses (registered perses a ∷ t) = attempts perses t + 1
  attempts b (_ ∷ t) = attempts b t

  -- A refresh gives errors where it failed, and changes nothing else that is looked at.
  abbrev Reports : Backend → List (Event R) → Outcome (List Error) × List (Event R) → Type 0
  Reports b t (ok es, t') =
      (failures b t' ≡ not (is_empty es))
      × (failures (other_of b) t' ≡ failures (other_of b) t)
      × (is_stamped t' ≡ is_stamped t)
  Reports b t (o, t') = ⊥

  errors_of :
      (b : Backend) (t : List (Event R)) (r : Outcome (List Error) × List (Event R))
      → Reports b t r
      → (es : List Error) × (t' : List (Event R)) × (r ≡ (ok es, t'))
        × (failures b t' ≡ not (is_empty es))
        × (failures (other_of b) t' ≡ failures (other_of b) t)
        × (is_stamped t' ≡ is_stamped t)
  errors_of b t (ok es, t') (own, other, mark) = (es, t', refl, own, other, mark)
  errors_of b t (err e, t') h = absurd h
  errors_of b t (panic m, t') h = absurd h

module _ {R : Type 0} (env : Env R) where
  abbrev pub taken : Answer (Unit {0}) → Outcome (Unit {0})
  taken (yields u) = ok tt
  taken (fails e) = err (env.aggregate e [])

module _ {R : Type 0} (env : Env R) (mon : Namespace) (client_org_id state : String) where
  -- The stamp was the last call, with the state as the annotation, after a run in which nothing failed,
  -- and the run ends well just when the cluster took it; or there was none, and the run fails since a
  -- registration or an AppBinding did.
  abbrev pub MarksWell : Outcome (Unit {0}) × List (Event R) → Type 0
  MarksWell (o, stamped s a ∷ t) =
      (s ≡ state)
      × (a
          ≡ env.patch t mon
              λ ns. record ns { annotations = assign env.keys.registered state ns.annotations })
      × (o ≡ taken env a)
      × (failures grafana t ≡ false)
      × (failures perses t ≡ false)
  MarksWell (o, t) =
      ((failures grafana t || failures perses t) ≡ true) × (is_stamped t ≡ false) × (o ≢ ok tt)

  -- What follows the two refreshes.
  abbrev stamp_after : List Error → List Error → Exec (Event R) (Unit {0})
  stamp_after ge pe =
      branch (is_empty ge && is_empty pe) (attempt (set_namespace_marker env mon state)) (pure [])
      >>= λ se. report env (ge ++ pe ++ se)

  abbrev refresh_grafana : Exec (Event R) (List Error)
  refresh_grafana =
      refresh env grafana mon state (register_grafana_backend env mon.name client_org_id)

  abbrev refresh_perses : Exec (Event R) (List Error)
  refresh_perses = refresh env perses mon state (register_perses_backend env mon.name client_org_id)

  stamping :
      (ge pe : List Error) (t : List (Event R))
      → failures grafana t ≡ not (is_empty ge)
      → failures perses t ≡ not (is_empty pe)
      → is_stamped t ≡ false
      → MarksWell (stamp_after ge pe t)
  unfolding ◌>>=◌ attempt set_namespace_marker with_marker
  stamping [] [] t g p s = ground (arith, g, p, s)
  stamping (e ∷ ge) pe t g p s = ground (arith, g, p, s)
  stamping [] (e ∷ pe) t g p s = ground (arith, g, p, s)

  refresh_grafana-Reports : Reports grafana [] (refresh_grafana [])
  unfolding refresh
  refresh_grafana-Reports = ground arith

  refresh_perses-Reports :
      (t : List (Event R)) → failures perses t ≡ false → Reports perses t (refresh_perses t)
  unfolding refresh
  refresh_perses-Reports t none_yet = ground (arith, none_yet)

  -- A namespace is stamped as registered in a state exactly when no registration and no AppBinding
  -- failed: then the last call writes that state into its annotation, and the registration succeeds
  -- just when that call does. Otherwise no stamp is written at all, and the registration fails.
  pub registration-MarksWell : MarksWell (register_backends env mon client_org_id state [])
  unfolding register_backends ◌>>=◌
  registration-MarksWell =
      let (ge, t1, e1, g1, p1, s1) = errors_of grafana [] _ refresh_grafana-Reports in
      let (pe, t2, e2, p2, g2, s2) = errors_of perses t1 _ (refresh_perses-Reports t1 p1) in
      subst MarksWell
        (sym (
          check_ok refresh_grafana fail (λ es. refresh_perses >>= stamp_after es) [] ge t1 e1
          ∙ check_ok refresh_perses fail (stamp_after ge) t1 pe t2 e2))
        (stamping ge pe t2 (g2 ∙ g1) p2 (s2 ∙ s1))

  -- While the stamp is stale each backend is asked to register exactly once, however the other fares.
  pub asked_once :
      is_stale env mon state ≡ true
      → let t = (register_backends env mon client_org_id state []).1 in
        (attempts grafana t ≡ 1) × (attempts perses t ≡ 1)
  unfolding register_backends
  asked_once stale = ground (arith, stale)

  fresh : is_stale env (with_marker env.keys.registered state mon) state ≡ false
  unfolding is_stale with_marker
  fresh =
      rw (index-assign env.keys.registered state mon.annotations)
        (ground (arith, eq_iff state state))

  same_marker :
      let k = env.keys.registered in
      with_marker k state (with_marker k state mon) ≡ with_marker k state mon
  unfolding with_marker
  same_marker =
      let k = env.keys.registered in
      rw
        (assign-same k state (assign k state mon.annotations)
          (lookup-assign k state mon.annotations))
        refl

  refresh-nothing :
      (b : Backend) (register : Exec (Event R) (Unit {0})) (t : List (Event R))
      → env.binding_exists t b ≡ true
      → refresh env b (with_marker env.keys.registered state mon) state register t ≡ (ok [], t)
  unfolding refresh
  refresh-nothing b register t exists = ground (arith, fresh, exists)

  -- A namespace that has been marked as registered in a state, and has both AppBindings, is not registered
  -- again in that state: the only call sets the same mark once more, which leaves the namespace as it is.
  pub marked_again :
      ((t : List (Event R)) (b : Backend) → env.binding_exists t b ≡ true)
      → let set = with_marker env.keys.registered state in
        ((register_backends env (set mon) client_org_id state []).1
          ≡ stamped state (env.patch [] (set mon) set) ∷ [])
        × (set (set mon) ≡ set mon)
  unfolding register_backends
  marked_again exists =
      let id = client_org_id in
      (
        ground (
          arith,
          refresh-nothing grafana (register_grafana_backend env mon.name id) [] (exists [] grafana),
          refresh-nothing perses (register_perses_backend env mon.name id) [] (exists [] perses),
        ),
        same_marker,
      )
