-- ===== src/Tests/RancherTokens.antt =====
-- The token of a Rancher cluster that is about to expire.
use grafana_tools.Base.{
  String, ℕ, [], ◌∷◌, ◌≡◌, ◌≢◌, refl, ◌==◌, index, ◌*◌, ◌/◌, if◌then◌else◌, arith, eq_iff,
}
use grafana_tools.Kube.Exec.{Answer, yields, ok}
use grafana_tools.Rancher.{RancherToken, Secret, key_base_url, key_token, find_token}
use grafana_tools.Rancher.Refresh.{NewToken, Env, with_next, process_token, renewal_offset}
use grafana_tools.Rancher.Tokens.{find-renewed, EndsInTime, renewal_in_time}

abbrev day : ℕ
day = renewal_offset

abbrev token : String → ℕ → RancherToken
token t expires = record { user_id = "u"; token_id = "id"; token = t; expires_at = expires }

abbrev decode : String → Answer RancherToken
decode t = yields (token t (if t == "new" then 400 * day else 2 * day))

abbrev secret : Secret
secret = record {
  key = record { namespace = "kubeops"; name = "rancher-auth" };
  contents = (key_base_url, "https://rancher") ∷ (key_token, "old") ∷ [];
}

abbrev made : NewToken
made = record { token = "new"; ttl = 400 * day; expires_at = "later" }

abbrev env : ℕ → Env
env now = record {
  get = λ t. yields secret;
  cluster_state = λ t. yields "s1";
  decode = λ t. decode;
  now = λ t. now;
  issue = λ t ttl. yields made;
  patch = λ t sec f. yields tt;
}

found : find_token decode secret "s1" ≡ ok (token "old" (2 * day))
unfolding find_token
found = refl

keys_set : (index secret.contents key_base_url ≢ "") × (index secret.contents key_token ≢ "")
unfolding index
keys_set = (ground (arith, eq_iff "https://rancher" ""), ground (arith, eq_iff "old" ""))

find-renewed_example :
    find_token decode (with_next made "s1" secret) "s1" ≡ ok (token "new" (400 * day))
unfolding index
find-renewed_example =
    find-renewed made "s1" secret decode (token "old" (2 * day)) (token "new" (400 * day))
      keys_set.0 keys_set.1 (ground (arith, eq_iff "new" "")) refl refl (ground arith)

-- A token that expires before the next day is renewed at once, and one that has a day more waits.
renewed : (process_token (env (2 * day)) secret []).0 ≡ ok (399 * day)
unfolding process_token find_token
renewed = refl

waiting : process_token (env (day / 2)) secret [] ≡ (ok (day / 2), [])
unfolding process_token find_token
waiting = refl

renewal_in_time_example :
    EndsInTime (2 * day) (token "old" (2 * day)) "s1" (process_token (env (2 * day)) secret [])
renewal_in_time_example =
    renewal_in_time (env (2 * day)) secret "s1" (token "old" (2 * day)) refl found
