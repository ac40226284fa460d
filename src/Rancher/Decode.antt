-- ===== src/Rancher/Decode.antt =====
-- `decodeToken` of rancher.go: what Rancher says of a token.
use grafana_tools.Base.{String, ℕ, Option, none, some, ◌==◌, ◌+◌, if◌then◌else◌}
use grafana_tools.Kube.{failed}
use grafana_tools.Kube.Exec.{Answer, yields, fails}
use grafana_tools.Kube.Answer.{◌>>=◌, ◌>>◌}
use grafana_tools.Rancher.{RancherToken}

-- A token of Rancher; the texts of times are RFC 3339, and no text is no expiry.
pub record Entry : Type 0 where
  pub user_id : String
  pub expires_at : String
  pub ttl : ℕ

-- Rancher's API with a token, and the libraries: `cut` is what `strings.Cut` finds before ":".
pub record Env : Type 0 where
  pub connect : (token : String) → Answer (Unit {0})
  pub by_id : (token id : String) → Answer Entry
  pub cut : String → Option String
  pub parse_time : String → Answer ℕ
  pub now : ℕ

abbrev pub valid_id : Option String → Answer String
valid_id none = fails (failed "rancher token format is invalid")
valid_id (some id) = yields id

module _ (env : Env) where
  unfoldable pub expiry : Entry → Answer ℕ
  expiry e = if e.expires_at == "" then yields (env.now + e.ttl) else env.parse_time e.expires_at

  unfoldable pub decode_token : String → Answer RancherToken
  unfolding ◌>>=◌ expiry
  decode_token token = do
    env.connect token
    id ← valid_id (env.cut token)
    entry ← env.by_id token id
    expires_at ← expiry entry
    yields
        (record { user_id = entry.user_id; token_id = id; token = token; expires_at = expires_at })
