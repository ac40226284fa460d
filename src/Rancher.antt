-- ===== src/Rancher.antt =====
-- pkg/rancherutil and pkg/controllers/ranchertoken: the token with which Rancher is asked, and its
-- renewal a day before it expires. Times are in milliseconds.
pub mod Decode
pub mod Refresh
pub mod Tokens
use grafana_tools.Base.{
  String, ℕ, Bool, true, false, not, Option, none, some, ◌&&◌, ◌==◌, Dict, index, ltb, concat,
  if◌then◌else◌,
}
use grafana_tools.Kube.{ObjectKey, Error, failed}
use grafana_tools.Kube.Exec.{Answer, yields, fails, Outcome, ok, err, panic}

abbrev pub key_base_url : String
key_base_url = "baseURL"

abbrev pub key_token : String
key_token = "token"

abbrev pub key_state : String
key_state = "token.state"

abbrev pub key_next : String
key_next = "token.next"

abbrev pub key_expires_at : String
key_expires_at = "token.expiresAt"

pub record RancherToken : Type 0 where
  pub user_id : String
  pub token_id : String
  pub token : String
  pub expires_at : ℕ

-- A Secret, as to its `Data`.
pub record Secret : Type 0 where
  pub key : ObjectKey
  pub contents : Dict String

abbrev pub missing : Secret → String → Error
missing sec k = failed (
    concat "rancher auth secret "
      (concat sec.key.namespace (concat "/" (concat sec.key.name (concat " is missing key " k)))))

-- The next token is taken where it can be decoded and expires later. `token` is nil where the first
-- one could not be decoded, and is dereferenced.
abbrev pub later_token : Answer RancherToken → Answer RancherToken → Outcome RancherToken
later_token (yields t) (yields n) = if ltb t.expires_at n.expires_at then ok n else ok t
later_token (yields t) (fails e) = ok t
later_token (fails e) (yields n) = panic "nil dereference of the token"
later_token (fails e) (fails e') = panic "exit: no active rancher token found"

abbrev pub only_token : Answer RancherToken → Outcome RancherToken
only_token (yields t) = ok t
only_token (fails e) = panic "exit: no active rancher token found"

-- `FindToken`; `decode` is `decodeToken`, which asks Rancher. An exit of the process is a panic.
unfoldable pub find_token : (String → Answer RancherToken) → Secret → String → Outcome RancherToken
unfolding index
find_token decode sec state =
    if index sec.contents key_base_url == ""
    then err (missing sec key_base_url)
    else if index sec.contents key_token == ""
    then err (missing sec key_token)
    else if index sec.contents key_state == state && not (index sec.contents key_next == "")
    then later_token (decode (index sec.contents key_token)) (decode (index sec.contents key_next))
    else only_token (decode (index sec.contents key_token))
