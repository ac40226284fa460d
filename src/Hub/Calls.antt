-- ===== src/Hub/Calls.antt =====
-- The four calls of the hub.
use grafana_tools.Base.{String, ℕ, Bool, not, Option, none, some, List, ◌==◌, ◌&&◌, if◌then◌else◌}
use grafana_tools.Kube.{Error}
use grafana_tools.Net.{Transport, Client, Response, Url, new_client}
use grafana_tools.Kube.Exec.{Answer, yields, fails, Exec, ask, call, ◌>>=◌}
use grafana_tools.Hub.{
  Backend, grafana, perses, Operation, Request, request, register_answer, unregister_answer,
}
use grafana_tools.Hub

abbrev pub made : Answer Client → Answer (Option Client)
made (fails e) = fails e
made (yields c) = yields (some c)

-- The API server has a client of the hub where it was started with an address and a token.
unfoldable pub hub_client :
    (String → Answer Url) → (String → Bool) → String → String → String → Answer (Option Client)
unfolding new_client
hub_client parse is_ip base_url token ca_cert =
    if not (base_url == "") && not (token == "")
    then made (new_client parse is_ip base_url token ca_cert)
    else yields none

pub data Event : Type 0 where
  sent : Request → Answer Response → Event

-- The network and the libraries. `Context` and `Config` are the types of `mona`, `G` and `P` the two
-- responses; `address` is `info.APIServerAddress` with a path joined, as `http.NewRequest` takes it.
pub record Env (Context Config G P : Type 0) : Type 0 where
  pub encode : Context → Config → Answer String
  pub encode_context : Context → Answer String
  pub address : String → String → Answer String
  pub send : List Event → Transport → Request → Answer Response
  pub decode_grafana : String → Answer G
  pub decode_perses : String → Answer P
  pub refused : (method : String) → ℕ → String → Error

module _ {Context Config G P : Type 0} (env : Env Context Config G P) (c : Client) where
  -- What the four calls share: encode, find the address, send.
  unfoldable pub post : Operation → Backend → Answer String → Exec Event Response
  unfolding request
  post op b payload = do
    body ← ask (λ t. payload)
    r ← ask (λ t. request (env.address c.base_url) c.token op b body)
    call (λ t. env.send t c.transport r) (sent r)

  -- `Register`
  unfoldable pub register : Context → Config → Exec Event G
  unfolding post register_answer
  register ctx cfg = do
    r ← post Hub.register grafana (env.encode ctx cfg)
    ask (λ t. register_answer env.decode_grafana (env.refused "POST") r)

  -- `RegisterPerses`
  unfoldable pub register_perses : Context → Config → Exec Event P
  unfolding post register_answer
  register_perses ctx cfg = do
    r ← post Hub.register perses (env.encode ctx cfg)
    ask (λ t. register_answer env.decode_perses (env.refused "POST") r)

  -- `Unregister`
  unfoldable pub unregister : Context → Exec Event (Unit {0})
  unfolding post unregister_answer
  unregister ctx = do
    r ← post Hub.unregister grafana (env.encode_context ctx)
    ask (λ t. unregister_answer (env.refused "DELETE") r)

  -- `UnregisterPerses`
  unfoldable pub unregister_perses : Context → Exec Event (Unit {0})
  unfolding post unregister_answer
  unregister_perses ctx = do
    r ← post Hub.unregister perses (env.encode_context ctx)
    ask (λ t. unregister_answer (env.refused "DELETE") r)
