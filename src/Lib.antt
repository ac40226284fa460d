-- ===== src/Lib.antt =====
-- A verification library for grafana-tools, the operator that keeps Grafana, Perses and the monitoring of
-- client organizations in step with the objects of a Kubernetes cluster. controller-runtime calls the
-- `Reconcile` of a reconciler with the key of an object that changed. The reconciler reads the object,
-- calls Grafana, Perses or the hub, and records the outcome in the status of the object; a finalizer
-- keeps a deleted object until what it stands for outside the cluster is gone. The detectors tell the
-- reconcilers where Prometheus and Alertmanager run. The AppBindings that the reconcilers of dashboards
-- resolve are those that the reconciler of client organizations writes, and the dashboards that it copies
-- into the monitoring namespace of a client are dashboards that they then process.
--
-- Parts and files:
--   Base, and Base/: texts, maps, lists, tests on native numbers, shared by all modules.
--   Kube: keys of objects, errors by kind and text, the `ctrl.Result` of a reconcile with its error.
--     Kube/Exec: handlers as actions, and the rules by which the proofs step through them.
--   Detector/Prometheus, Detector/Alertmanager: pkg/detector. `ready` and `detect` are Ready and detect of
--     the lazy detectors, `delegate` their other methods, `default_prometheus` is DefaultPrometheus.
--     Detector/Safety: their properties.
--   Datasource: pkg/controllers/openviz/grafanadatasource_controller.go; `reconcile`, `tear_down`,
--     `create_or_update`, `handle_failure` and `delete_external` carry the methods' names.
--     Datasource/Lifecycle: its properties. Datasource/Rounds: repeated reconciles, in a cluster that takes
--     every patch; Datasource/Rounds/Rest: where they end.
--   Json, Json/Members: JSON values and the lookup of members.
--   Grafana/Panels: addDashboardID, getUpdatedPanels and replaceDatasource of
--     pkg/controllers/openviz/grafanadashboard_controller.go. Grafana/State: GrafanaState, PersesState and
--     the map they share. Grafana/Dashboard: the reconciler of that file. Each has its properties in the
--     modules below it: how panels and variables are replaced, when a finalizer is given up, how a run can
--     end, and what is uploaded. Grafana/Watch: which dashboards of either kind a changed AppBinding
--     concerns, with the handlers of both files.
--     Grafana/State/History: what the cache of fingerprints answers. Grafana/Client: pkg/grafana/client.go and
--     config.go. Grafana/Builder: pkg/grafana/builder.go, with the states that it can come to in Builder/Reach.
--   Net: addresses, as the clients read them.
--   Perses/Client: pkg/perses/client.go, as to which AppBinding is meant. Perses/Requests: newPersesClient of
--     that file, and handlers.go; Perses/Requests/Addressed: where its requests go, and with what token.
--     Perses/Variables: updateDatasourceVariable, and Perses/Dashboard: the reconciler, both
--     of pkg/controllers/openviz/persesdashboard_controller.go.
--   ServiceMonitor/Ports: the ports and subsets of copied services and endpoints, of
--     pkg/controllers/servicemonitor/federation_controller.go. ServiceMonitor/Federated and Resolved: their
--     properties.
--   Hub: pkg/controllers/prometheus/client.go, as to the requests of the hub and what its answers mean.
--     Hub/Calls: NewClient and the four calls. Hub/Sent: what they send.
--   Prometheus: pkg/controllers/prometheus/prometheus_controller.go. Prometheus/Project: the project and the
--     preset of a Prometheus. Prometheus/Bindings: its AppBindings. Prometheus/Setup:
--     SetupClusterForPrometheus. Prometheus/Reconcile: Reconcile and ensureExternalLabels. The modules below
--     them: what the project is and that it is only read, when the registration is marked, and what a deletion does
--     first.
--   Rancher: FindToken of pkg/rancherutil/rancher.go. Rancher/Decode: decodeToken, and Rancher/Refresh:
--     RenewToken of that file, and pkg/controllers/ranchertoken/token_controller.go. Rancher/Tokens: their properties.
--   DashboardGroup: upsertDatasourceVar and addVars of pkg/registry/ui/dashboardgroup/storage.go.
--     DashboardGroup/Panels: which panels are linked to. DashboardGroup/Objects, Find, Links and Create: the
--     dashboards that are asked for, getDashboardLink and Create of that file. DashboardGroup/Vars,
--     Links/Authorized and Create/Answered: their properties.
--   Alertmanager: pkg/controllers/alertmanager/alertmanager_controller.go. Alertmanager/Validation:
--     validateConfig. Alertmanager/Reconcile: the reconciler. Alertmanager/Valid and Ends: their properties.
--   ServiceMonitor/Federation: the reconciler of pkg/controllers/servicemonitor/federation_controller.go,
--     with what it copies in ServiceMonitor/Federation/Copies, and Reconcile beside it.
--     ServiceMonitor/Federation/Contained: where it writes.
--   ServiceMonitor/Order: the order in which both go through the Prometheus objects.
--   ServiceMonitor/Auto: pkg/controllers/servicemonitor/auto_controller.go. ServiceMonitor/Auto/Labelled and
--     Selected: its properties.
--   ClientOrg/Copies: pkg/controllers/namespace/dashboard.go, one definition of both loops over a `Kind`.
--     ClientOrg/Backends: registerBackends and below of pkg/controllers/namespace/backend.go.
--     ClientOrg/Config: buildPrometheusConfig of that file, and the choice of the Prometheus.
--     ClientOrg/Reconcile: Reconcile of namespace_controller.go, and helpers.go. ClientOrg/Pinned, Markers,
--     Reconcile/Teardown and Reconcile/Guards: their properties.
--   Watches: the predicates and handlers of SetupWithManager. Watches/ServiceMonitors: those of
--     pkg/controllers/servicemonitor. Watches/Namespaces: those of namespace_controller.go. Watches/Settings:
--     those of pkg/grafana/builder.go, of the Alertmanager and of the Prometheus. Watches/Indexes: the field
--     indexes of pkg/apiserver/apiserver.go.
--   Tests/: the properties at concrete inputs, and runs of the definitions.
--
-- How the code is translated:
--   A handler is an action over the calls made so far, newest first. A call that changes something is
--     written down with its outcome; a call that only reads is not. What the cluster, Grafana, Perses, the
--     hub and the vendored libraries answer is a field of the handler's `Env`, and may depend on all the
--     calls made before; a theorem about any `Env` is about any such behaviour, failures at any call
--     included. A pass through a handler is one such sequence; reconciles of one object are not
--     concurrent, and the detectors hold a lock, so that each method is one step.
--   An error return leaves the calls made before it in place. A nil dereference and a write to a nil map
--     are the outcome `panic`.
--   The function that the code hands to PatchStatus, CreateOrPatch or Patch is a name, a `Change`, and
--     `apply` is what it does to the object; the environment gives back the patched object.
--   The package variable stateMap is the map of the newest `cached` call.
--   Objects carry the fields that the handlers read or write. Vendored types are cut down likewise, and
--     `rest` stands for what is passed through. JSON numbers are values, not texts.
--   Delays of the code that are constants are in seconds.
--   All loops are by recursion on the list, so that no fuel is needed.
--
-- Not modelled: the registration of reconcilers and watches with controller-runtime, the handshake of TLS, JSON texts, logging; and the commands and the API server, which only
-- put the parts together.
mod Base
pub mod Kube
pub mod Net
pub mod Hub
pub mod Detector
pub mod Datasource
pub mod Json
pub mod Grafana
pub mod Perses
pub mod ClientOrg
pub mod ServiceMonitor
pub mod Prometheus
pub mod DashboardGroup
pub mod Rancher
pub mod Alertmanager
pub mod Watches
mod Tests
