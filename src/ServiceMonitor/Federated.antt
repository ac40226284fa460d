-- ===== src/ServiceMonitor/Federated.antt =====
-- Where the copied services and endpoints lead.
use grafana_tools.Base.{
  String, ℕ, Bool, true, false, ◌||◌, Option, none, some, List, [], ◌∷◌, ◌≡◌, refl, ap, ◌∙◌, arith,
  ◌==◌, eq_iff, if◌then◌else◌, Bool-cases, Option-cases, inl, inr, ◌&&◌, is_some,
}
use grafana_tools.ServiceMonitor.Ports.{
  ServicePort, EndpointPort, Subset, Service, upsert_service_port, copy_ports, upsert_endpoint_port,
  service_port_for_name, copy_endpoint_ports, copy_subset, prepended, copy_subsets, empty_subset,
}

-- The port of that name which the source lists last, else the other.
abbrev pub last_port : {Rest : Type 0} → List (ServicePort Rest) → String → Option ℕ → Option ℕ
last_port [] name other = other
last_port (p ∷ ps) name other = last_port ps name (if p.name == name then some p.port else other)

module _ {Rest : Type 0} (blank : Rest) where
  port-upsert :
      (ps : List (ServicePort Rest)) (x : ServicePort Rest) (name : String)
      → service_port_for_name (upsert_service_port blank ps x) name
        ≡ (if x.name == name then some x.port else service_port_for_name ps name)
  unfolding service_port_for_name upsert_service_port
  port-upsert [] x name = refl
  port-upsert (p ∷ ps) x name = elim (Bool-cases (p.name == x.name)) [
    | inl e ↦ ground (arith, e, eq_iff p.name x.name, eq_iff x.name name, eq_iff p.name name)
    | inr e ↦ rw e (
        ground (
          arith,
          e,
          port-upsert ps x name,
          eq_iff p.name x.name,
          eq_iff x.name name,
          eq_iff p.name name,
        ))
  ]

  -- In a copied service a name has the port of the source, the last where it is listed twice; a name
  -- that the source does not list has the port it had.
  pub port-copy_ports :
      (xs ps : List (ServicePort Rest)) (name : String)
      → service_port_for_name (copy_ports blank xs ps) name
        ≡ last_port xs name (service_port_for_name ps name)
  unfolding copy_ports
  port-copy_ports [] ps name = refl
  port-copy_ports (x ∷ xs) ps name =
      port-copy_ports xs (upsert_service_port blank ps x) name
      ∙ ap (last_port xs name) (port-upsert ps x name)

-- Whether a port of that name is listed.
abbrev pub is_listed : {Rest : Type 0} → List (ServicePort Rest) → String → Bool
is_listed [] name = false
is_listed (p ∷ ps) name = p.name == name || is_listed ps name

-- Each port of the source is a port of the service.
abbrev pub knows : {Rest : Type 0} → List (ServicePort Rest) → List (EndpointPort Rest) → Bool
knows ports [] = true
knows ports (x ∷ xs) = is_listed ports x.name && knows ports xs

abbrev pub all_known : {Rest : Type 0} → List (ServicePort Rest) → List (Subset Rest) → Bool
all_known ports [] = true
all_known ports (s ∷ ss) = knows ports s.ports && all_known ports ss

listed_found :
    {Rest : Type 0} (ports : List (ServicePort Rest)) (name : String)
    → is_listed ports name ≡ is_some (service_port_for_name ports name)
unfolding service_port_for_name
listed_found [] name = refl
listed_found (p ∷ ps) name = ground (arith, listed_found ps name)

module _ {Rest : Type 0} (blank : Rest) (svc : Service Rest) where
  ports_defined :
      (xs ps : List (EndpointPort Rest))
      → is_some (copy_endpoint_ports blank svc xs ps) ≡ knows svc.ports xs
  unfolding copy_endpoint_ports
  ports_defined [] ps = refl
  ports_defined (x ∷ xs) ps = elim (Option-cases (service_port_for_name svc.ports x.name)) [
    | inl e ↦ rw (listed_found svc.ports x.name, e) refl
    | inr (port, e) ↦
        rw (listed_found svc.ports x.name, e)
          (ports_defined xs (upsert_endpoint_port blank ps x.name port))
  ]

  subset_defined :
      (s o : Subset Rest) → is_some (copy_subset blank svc s o) ≡ knows svc.ports s.ports
  unfolding copy_subset
  subset_defined s o = ground (arith, ports_defined s.ports o.ports)

  prepended_defined :
      (a : Option (Subset Rest)) (r : Option (List (Subset Rest)))
      → is_some (prepended blank svc a r) ≡ (is_some a && is_some r)
  prepended_defined none r = refl
  prepended_defined (some s) none = refl
  prepended_defined (some s) (some ss) = refl

  -- Copying endpoints ends without a panic exactly when the service has a port of every name that the
  -- source's subsets list.
  pub copy_subsets-defined :
      (ss os : List (Subset Rest)) → is_some (copy_subsets blank svc ss os) ≡ all_known svc.ports ss
  unfolding copy_subsets
  copy_subsets-defined [] os = refl
  copy_subsets-defined (s ∷ ss) [] =
      prepended_defined (copy_subset blank svc s empty_subset) (copy_subsets blank svc ss [])
      ∙ rw (subset_defined s empty_subset, copy_subsets-defined ss []) refl
  copy_subsets-defined (s ∷ ss) (o ∷ os) =
      prepended_defined (copy_subset blank svc s o) (copy_subsets blank svc ss os)
      ∙ rw (subset_defined s o, copy_subsets-defined ss os) refl
