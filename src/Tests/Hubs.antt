-- ===== src/Tests/Hubs.antt =====
-- A hub that takes every request.
use grafana_tools.Base.{String, []}
use grafana_tools.Kube.{failed}
use grafana_tools.Kube.Exec.{yields}
use grafana_tools.Net.{Client, preset, client_with}
use grafana_tools.Hub.{Backend, grafana, perses}
use grafana_tools.Hub
use grafana_tools.Hub.Calls.{Env, register, register_perses, unregister, unregister_perses}
use grafana_tools.Hub.Sent.{Posted, Decoded, calls-Posted}

abbrev env : Env String String String String
env = record {
  encode = λ ctx cfg. yields cfg;
  encode_context = λ ctx. yields ctx;
  address = λ base path. yields path;
  send = λ t transport q. yields (record { status = 200; body = yields q.body });
  decode_grafana = λ s. yields s;
  decode_perses = λ s. yields s;
  refused = λ method status body. failed body;
}

abbrev hub_client : Client
hub_client = client_with "https://hub.demo" "t0" "" preset

calls-Posted_example :
    Posted env hub_client Hub.register grafana
      (yields "cfg")
      (λ r. Decoded env hub_client env.decode_grafana r.body)
      (register env hub_client "ctx" "cfg" [])
    × Posted env hub_client Hub.register perses
        (yields "cfg")
        (λ r. Decoded env hub_client env.decode_perses r.body)
        (register_perses env hub_client "ctx" "cfg" [])
    × Posted env hub_client Hub.unregister grafana
        (yields "ctx")
        (λ r u. Unit {0})
        (unregister env hub_client "ctx" [])
    × Posted env hub_client Hub.unregister perses
        (yields "ctx")
        (λ r u. Unit {0})
        (unregister_perses env hub_client "ctx" [])
calls-Posted_example = calls-Posted env hub_client "ctx" "cfg"
