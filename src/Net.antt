-- ===== src/Net.antt =====
-- The HTTP clients of Grafana, Perses and the hub: the addresses they read, and, for the latter two, the
-- client as `NewClient` of pkg/controllers/prometheus/client.go makes it.
use grafana_tools.Base.{String, ℕ, Bool, Option, none, some, ◌&&◌, ◌==◌, concat, if◌then◌else◌}
use grafana_tools.Kube.Exec.{Answer, yields, fails}

-- What `url.Parse` gives, as far as it is read.
pub record Url : Type 0 where
  pub scheme : String
  pub hostname : String

-- Where an address is an IP over https, certificates are not verified. `is_ip` is whether `net.ParseIP`
-- reads a host.
unfoldable pub is_insecure : (String → Bool) → Url → Bool
is_insecure is_ip u = is_ip u.hostname && u.scheme == "https"

-- The transport of the HTTP client: with the certificates given as roots, without verification, or that
-- of the library.
pub data Transport : Type 0 where
  pinned : (ca_cert : String) → Transport
  unverified preset : Transport

pub record Client : Type 0 where
  pub base_url : String
  pub token : String
  pub ca_cert : String
  pub transport : Transport

abbrev pub client_with : String → String → String → Transport → Client
client_with base_url token ca_cert transport = record {
  base_url = base_url;
  token = token;
  ca_cert = ca_cert;
  transport = transport;
}

-- `NewClient`; a certificate of length 0 is the empty text.
unfoldable pub new_client :
    (String → Answer Url) → (String → Bool) → String → String → String → Answer Client
unfolding is_insecure
new_client parse is_ip base_url token ca_cert =
    if ca_cert == ""
    then elim (parse base_url) [
      | fails e ↦ fails e
      | yields u ↦
          yields (
            client_with base_url token ca_cert (if is_insecure is_ip u then unverified else preset))
    ]
    else yields (client_with base_url token ca_cert (pinned ca_cert))

-- The header `Authorization`, where there is a token.
abbrev pub authorization_of : String → Option String
authorization_of token = if token == "" then none else some (concat "Bearer " token)

pub record Response : Type 0 where
  pub status : ℕ
  pub body : Answer String
