-- ===== src/ServiceMonitor/Resolved.antt =====
-- The ports of copied endpoints.
use grafana_tools.Base.{
  String, ℕ, Bool, false, Option, none, some, List, [], ◌∷◌, ◌≡◌, refl, subst, arith, ◌==◌, eq_iff,
  ◌||◌, if◌then◌else◌, Bool-cases, Option-cases, inl, inr,
}
use grafana_tools.ServiceMonitor.Ports.{
  EndpointPort, Subset, Service, upsert_endpoint_port, service_port_for_name, copy_endpoint_ports,
  copy_subset, prepended, copy_subsets, empty_subset,
}

abbrev pub endpoint_port : {Rest : Type 0} → List (EndpointPort Rest) → String → Option ℕ
endpoint_port [] name = none
endpoint_port (p ∷ ps) name = if p.name == name then some p.port else endpoint_port ps name

abbrev pub lists : {Rest : Type 0} → List (EndpointPort Rest) → String → Bool
lists [] name = false
lists (p ∷ ps) name = p.name == name || lists ps name

abbrev pub ports_at : {Rest : Type 0} → List (Subset Rest) → List (EndpointPort Rest)
ports_at [] = []
ports_at (o ∷ os) = o.ports

abbrev pub rest_of : {Rest : Type 0} → List (Subset Rest) → List (Subset Rest)
rest_of [] = []
rest_of (o ∷ os) = os

module _ {Rest : Type 0} (svc : Service Rest) where
  -- The n-th subset has the service's address, and under each name that the n-th of the source lists
  -- the service's port, under any other name the port that the target had. The further ones are as
  -- they were.
  abbrev pub Resolved : List (Subset Rest) → List (Subset Rest) → List (Subset Rest) → Type 0
  Resolved [] os rs = rs ≡ os
  Resolved (s ∷ ss) os [] = ⊥
  Resolved (s ∷ ss) os (r ∷ rs) =
      (r.addresses ≡ svc.cluster_ip ∷ [])
      × ((name : String)
          → endpoint_port r.ports name ≡ (
              if lists s.ports name
              then service_port_for_name svc.ports name
              else endpoint_port (ports_at os) name))
      × Resolved ss (rest_of os) rs

module _ {Rest : Type 0} (blank : Rest) (svc : Service Rest) where
  endpoint-upsert :
      (ps : List (EndpointPort Rest)) (n : String) (q : ℕ) (name : String)
      → endpoint_port (upsert_endpoint_port blank ps n q) name
        ≡ (if n == name then some q else endpoint_port ps name)
  unfolding upsert_endpoint_port
  endpoint-upsert [] n q name = refl
  endpoint-upsert (p ∷ ps) n q name = elim (Bool-cases (p.name == n)) [
    | inl e ↦ ground (arith, e, eq_iff p.name n, eq_iff n name, eq_iff p.name name)
    | inr e ↦ rw e (
        ground (
          arith,
          e,
          endpoint-upsert ps n q name,
          eq_iff p.name n,
          eq_iff n name,
          eq_iff p.name name,
        ))
  ]

  ports_resolved :
      (xs ps rs : List (EndpointPort Rest)) (name : String)
      → copy_endpoint_ports blank svc xs ps ≡ some rs
      → endpoint_port rs name
        ≡ (if lists xs name then service_port_for_name svc.ports name else endpoint_port ps name)
  unfolding copy_endpoint_ports
  ports_resolved [] ps rs name h = ground (arith, h)
  ports_resolved (x ∷ xs) ps rs name h =
      elim (Option-cases (service_port_for_name svc.ports x.name)) [
        | inl e ↦ ground (arith, e, h)
        | inr (port, e) ↦ ground (
          arith,
          e,
          h,
          eq_iff x.name name,
          endpoint-upsert ps x.name port name,
          ports_resolved xs (upsert_endpoint_port blank ps x.name port) rs name
              (ground (arith, e, h)),
        )
      ]

  subset_resolved :
      (s o : Subset Rest) {r : Subset Rest}
      → copy_subset blank svc s o ≡ some r
      → (r.addresses ≡ svc.cluster_ip ∷ [])
        × (copy_endpoint_ports blank svc s.ports o.ports ≡ some r.ports)
  unfolding copy_subset
  subset_resolved s o h = elim (Option-cases (copy_endpoint_ports blank svc s.ports o.ports)) [
    | inl e ↦ ground (arith, e, h)
    | inr (ports, e) ↦ ground (arith, e, h)
  ]

  prepended_inv :
      (a : Option (Subset Rest)) (t : Option (List (Subset Rest))) {rs : List (Subset Rest)}
      → prepended blank svc a t ≡ some rs
      → (x : Subset Rest) × (xs : List (Subset Rest)) × (a ≡ some x) × (t ≡ some xs) × (x ∷ xs ≡ rs)
  prepended_inv none t h = cc
  prepended_inv (some x) none h = cc
  prepended_inv (some x) (some xs) h = (x, xs, refl, refl, cc)

  Resolved-next :
      (s o : Subset Rest) (ss os : List (Subset Rest)) (r : Subset Rest) (rs : List (Subset Rest))
      → copy_subset blank svc s o ≡ some r
      → Resolved svc ss os rs
      → Resolved svc (s ∷ ss) (o ∷ os) (r ∷ rs)
  Resolved-next s o ss os r rs h later =
      let (address, ports) = subset_resolved s o h in
      (address, λ name. ports_resolved s.ports o.ports r.ports name ports, later)

  -- When endpoints are copied, each subset leads to the service: it has the service's address, and each
  -- port that the source lists has, under its name, the port of the service; other ports and further
  -- subsets of the target are kept.
  pub copy_subsets-Resolved :
      (ss os : List (Subset Rest)) {rs : List (Subset Rest)}
      → copy_subsets blank svc ss os ≡ some rs
      → Resolved svc ss os rs
  unfolding copy_subsets
  copy_subsets-Resolved [] os h = cc
  copy_subsets-Resolved (s ∷ ss) [] h =
      let (x, xs, ex, exs, e) =
        prepended_inv (copy_subset blank svc s empty_subset) (copy_subsets blank svc ss []) h in
      subst (Resolved svc (s ∷ ss) []) e
        (Resolved-next s empty_subset ss [] x xs ex (copy_subsets-Resolved ss [] exs))
  copy_subsets-Resolved (s ∷ ss) (o ∷ os) h =
      let (x, xs, ex, exs, e) =
        prepended_inv (copy_subset blank svc s o) (copy_subsets blank svc ss os) h in
      subst (Resolved svc (s ∷ ss) (o ∷ os)) e
        (Resolved-next s o ss os x xs ex (copy_subsets-Resolved ss os exs))
