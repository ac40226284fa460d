-- ===== src/ServiceMonitor/Ports.antt =====
-- federation_controller.go: the ports of the services and endpoints that are copied beside a service
-- monitor.
use grafana_tools.Base.{String, ℕ, Option, none, some, List, [], ◌∷◌, ◌==◌, if◌then◌else◌}

-- `core.ServicePort` and `core.EndpointPort` as far as they are read or written; the rest is kept, and
-- is blank in a new one.
pub record ServicePort (Rest : Type 0) : Type 0 where
  pub name : String
  pub port : ℕ
  pub target_port : ℕ
  pub rest : Rest

pub record EndpointPort (Rest : Type 0) : Type 0 where
  pub name : String
  pub port : ℕ
  pub rest : Rest

-- `core.EndpointSubset` likewise; the addresses are IPs.
pub record Subset (Rest : Type 0) : Type 0 where
  pub addresses : List String
  pub ports : List (EndpointPort Rest)

abbrev pub empty_subset : {Rest : Type 0} → Subset Rest
empty_subset = record { addresses = []; ports = [] }

-- `core.Service` likewise.
pub record Service (Rest : Type 0) : Type 0 where
  pub cluster_ip : String
  pub ports : List (ServicePort Rest)

module _ {Rest : Type 0} (blank : Rest) where
  unfoldable pub upsert_service_port :
      List (ServicePort Rest) → ServicePort Rest → List (ServicePort Rest)
  upsert_service_port [] x =
      record { name = x.name; port = x.port; target_port = x.port; rest = blank } ∷ []
  upsert_service_port (p ∷ ps) x =
      if p.name == x.name
      then record p { port = x.port; target_port = x.port } ∷ ps
      else p ∷ upsert_service_port ps x

  -- The loop of `copyService` over the source's ports.
  unfoldable pub copy_ports :
      List (ServicePort Rest) → List (ServicePort Rest) → List (ServicePort Rest)
  unfolding upsert_service_port
  copy_ports [] ports = ports
  copy_ports (x ∷ xs) ports = copy_ports xs (upsert_service_port ports x)

  unfoldable pub upsert_endpoint_port :
      List (EndpointPort Rest) → String → ℕ → List (EndpointPort Rest)
  upsert_endpoint_port [] name port = record { name = name; port = port; rest = blank } ∷ []
  upsert_endpoint_port (p ∷ ps) name port =
      if p.name == name
      then record p { port = port } ∷ ps
      else p ∷ upsert_endpoint_port ps name port

-- `ServicePortForName`, which panics where this is none.
unfoldable pub service_port_for_name : {Rest : Type 0} → List (ServicePort Rest) → String → Option ℕ
service_port_for_name [] name = none
service_port_for_name (p ∷ ps) name =
    if p.name == name then some p.port else service_port_for_name ps name

module _ {Rest : Type 0} (blank : Rest) (svc : Service Rest) where
  abbrev pub upserted :
      String → Option ℕ → List (EndpointPort Rest) → Option (List (EndpointPort Rest))
  upserted name none ports = none
  upserted name (some port) ports = some (upsert_endpoint_port blank ports name port)

  abbrev pub then_ports : {A B : Type 0} → Option A → (A → Option B) → Option B
  then_ports none f = none
  then_ports (some a) f = f a

  -- The inner loop of `copyEndpoints`, over the source's ports; a panic is none.
  unfoldable pub copy_endpoint_ports :
      List (EndpointPort Rest) → List (EndpointPort Rest) → Option (List (EndpointPort Rest))
  unfolding service_port_for_name upsert_endpoint_port
  copy_endpoint_ports [] ports = some ports
  copy_endpoint_ports (x ∷ xs) ports =
      then_ports (upserted x.name (service_port_for_name svc.ports x.name) ports)
        (copy_endpoint_ports xs)

  unfoldable pub copy_subset : Subset Rest → Subset Rest → Option (Subset Rest)
  unfolding copy_endpoint_ports
  copy_subset src target =
      then_ports (copy_endpoint_ports src.ports target.ports)
        λ ports. some (record { addresses = svc.cluster_ip ∷ []; ports = ports })

  abbrev pub prepended :
      Option (Subset Rest) → Option (List (Subset Rest)) → Option (List (Subset Rest))
  prepended none rest = none
  prepended (some s) none = none
  prepended (some s) (some ss) = some (s ∷ ss)

  -- The outer loop: the n-th subset of the source is written to the n-th of the target, which is
  -- added where it is missing; the further ones of the target stay.
  unfoldable pub copy_subsets :
      List (Subset Rest) → List (Subset Rest) → Option (List (Subset Rest))
  unfolding copy_subset
  copy_subsets [] targets = some targets
  copy_subsets (s ∷ ss) [] = prepended (copy_subset s empty_subset) (copy_subsets ss [])
  copy_subsets (s ∷ ss) (o ∷ os) = prepended (copy_subset s o) (copy_subsets ss os)
