-- ===== src/Tests/ClientOrgs.antt =====
-- A client organization whose dashboards are copied and whose backends are registered.
use grafana_tools.Base.{String, ℕ, true, false, Option, none, some, [], ◌∷◌, ◌≡◌, refl, concat}
use grafana_tools.Kube.{ObjectKey, Error, failed}
use grafana_tools.Kube.Exec.{Answer, yields}
use grafana_tools.Prometheus.{grafana_parameters}
use grafana_tools.ClientOrg.{Namespace, monitoring_namespace}
use grafana_tools.ClientOrg.Copies.{TemplateVar, Board, Kind, grafana_kind, Source, copy_dashboards}
use grafana_tools.ClientOrg.Pinned.{copies_stable}
use grafana_tools.ClientOrg.Backends.{Env, register_backends, with_marker, stamped}
use grafana_tools.ClientOrg.Markers.{MarksWell, registration-MarksWell, marked_again}

abbrev title : String → String
title t = concat "Client / " t

abbrev kind : Kind (Board ℕ)
kind = grafana_kind title

abbrev digest : Source (Board ℕ) → String
digest d = d.key.name

abbrev variable : String → TemplateVar ℕ
variable n = record { name = n; type = "query"; query = "label_values(n)"; rest = 0 }

abbrev board : Board ℕ
board = record { title = "pods"; templating = variable "namespace" ∷ variable "pod" ∷ []; rest = 1 }

abbrev source : String → Source (Board ℕ)
source ns = record {
  key = record { namespace = ns; name = "pods" };
  labels = [];
  annotations = ("team", "a") ∷ [];
  model = some (yields board);
  reference = none;
  templatize = none;
}

abbrev client : Namespace
client = record {
  name = "acme";
  is_deleted = false;
  finalizers = [];
  labels = [];
  annotations = [];
}

abbrev refusing : ObjectKey × Source (Board ℕ) × Board ℕ → Option Error
refusing w = some (failed "forbidden")

copies_stable_example :
    copy_dashboards kind digest refusing client
      (yields (source "demo" ∷ source "acme-monitoring" ∷ source "ops" ∷ []))
    ≡ copy_dashboards kind digest refusing client (yields (source "demo" ∷ source "ops" ∷ []))
unfolding monitoring_namespace
copies_stable_example =
    copies_stable kind digest refusing client "acme" (source "demo" ∷ []) (source "ops" ∷ [])
      (source "acme-monitoring") refl

abbrev hub : Answer ℕ → Env ℕ
hub answer = record {
  keys = record {
    client_org = "client-org";
    ace_org_id = "org";
    registered = "registered";
    prometheus_key = "prometheus";
  };
  binding_exists = λ t b. true;
  register = λ t b. answer;
  write_binding = λ t b r. yields tt;
  write_secret = λ t b r. yields tt;
  patch = λ t ns f. yields tt;
  url_of = λ r. "https://grafana.demo";
  token_of = λ r. "t0";
  parameters_of = λ r. grafana_parameters "ds" none;
  ca_cert = "";
  aggregate = λ e es. e;
}

registration-MarksWell_example :
    MarksWell
      (hub (yields 1))
      client
      "7"
      "state"
      (register_backends (hub (yields 1)) client "7" "state" [])
registration-MarksWell_example = registration-MarksWell (hub (yields 1)) client "7" "state"

marked_again_example :
    let set = with_marker "registered" "state" in
    ((register_backends (hub (yields 1)) (set client) "7" "state" []).1
      ≡ stamped "state" (yields tt) ∷ [])
    × (set (set client) ≡ set client)
marked_again_example = marked_again (hub (yields 1)) client "7" "state" λ t b. refl
