-- ===== src/Hub.antt =====
-- pkg/controllers/prometheus/client.go: the calls of the hub, as to what is sent and how the answer is
-- read. Finding the address, the transport and JSON are arguments of the callers.
pub mod Calls
pub mod Sent
use grafana_tools.Base.{String, ℕ, Option, none, some, ◌==◌, eqb, if◌then◌else◌, concat}
use grafana_tools.Kube.{Error}
use grafana_tools.Net.{Response, authorization_of}
use grafana_tools.Kube.Exec.{Answer, yields, fails}

pub data Backend : Type 0 where
  grafana perses : Backend

pub data Operation : Type 0 where
  register unregister : Operation

-- What is joined to the path of the hub's address.
unfoldable pub api_path : Operation → Backend → String
api_path register grafana = "api/v1/trickster/register"
api_path unregister grafana = "api/v1/trickster/unregister"
api_path register perses = "api/v1/trickster/perses/register"
api_path unregister perses = "api/v1/trickster/perses/unregister"

pub record Request : Type 0 where
  pub url : String
  pub body : String
  pub authorization : Option String

-- The request of `Register`, `RegisterPerses`, `Unregister` and `UnregisterPerses`; `address` is
-- `info.APIServerAddress` with the path joined.
unfoldable pub request :
    (String → Answer String) → String → Operation → Backend → String → Answer Request
unfolding api_path
request address token op b body = elim (address (api_path op b)) [
  | yields url ↦ yields (record { url = url; body = body; authorization = authorization_of token })
  | fails e ↦ fails e
]

module _ {A : Type 0} where
  abbrev pub decoded : ℕ → (String → Answer A) → (ℕ → String → Error) → Answer String → Answer A
  decoded status decode refused (fails e) = fails e
  decoded status decode refused (yields body) =
      if eqb status 200 then decode body else fails (refused status body)

  -- A registration is read of the body of an answer with status 200; `refused` is
  -- `apierrors.NewGenericServerResponse`.
  unfoldable pub register_answer : (String → Answer A) → (ℕ → String → Error) → Response → Answer A
  register_answer decode refused r = decoded r.status decode refused r.body

abbrev pub text_of : Answer String → String
text_of (yields body) = body
text_of (fails e) = ""

-- The error names the method DELETE, although the request is a POST.
unfoldable pub unregister_answer : (ℕ → String → Error) → Response → Answer (Unit {0})
unregister_answer refused r =
    if eqb r.status 200 then yields tt else fails (refused r.status (text_of r.body))
