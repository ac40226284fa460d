-- ===== src/Tests.antt =====
-- The theorems applied to concrete inputs.
mod Detectors
mod Datasources
mod Dashboards
mod PersesDashboards
mod ClientOrgs
mod Namespaces
mod ServiceMonitors
mod Watches
mod RancherTokens
mod Prometheuses
mod DashboardGroups
mod Alertmanagers
mod AutoMonitors
mod Federations
mod Builders
mod Hubs
mod Caches
mod Handlers
