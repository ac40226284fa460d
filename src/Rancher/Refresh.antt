-- ===== src/Rancher/Refresh.antt =====
-- `RenewToken` of rancher.go and the reconciler of token_controller.go.
use grafana_tools.Base.{String, ℕ, none, some, List, ◌+◌, ◌-◌, Dict, ltb, assign}
use grafana_tools.Kube.{Reply, ignore_not_found}
use grafana_tools.Kube.Exec.{Answer, Exec, pure, ask, look, local, call, branch, check, ◌>>=◌, ◌>>◌}
use grafana_tools.Rancher.{RancherToken, Secret, key_next, key_state, key_expires_at, find_token}

-- A token that Rancher has just made.
pub record NewToken : Type 0 where
  pub token : String
  pub ttl : ℕ
  pub expires_at : String

-- A call that changes something, with its outcome.
pub data Event : Type 0 where
  issued : Answer NewToken → Event
  stored : NewToken → String → Answer (Unit {0}) → Event

pub record Env : Type 0 where
  pub get : List Event → Answer Secret
  pub cluster_state : List Event → Answer String
  pub decode : List Event → String → Answer RancherToken
  pub now : List Event → ℕ
  pub issue : List Event → (ttl : ℕ) → Answer NewToken
  pub patch : List Event → Secret → (Secret → Secret) → Answer (Unit {0})

-- `renewalOffset`, and the life that is asked for.
abbrev pub renewal_offset : ℕ
renewal_offset = 86_400_000

abbrev pub year : ℕ
year = 31_536_000_000

-- What `StringData` makes of the data: the API server merges it.
abbrev pub stored_data : NewToken → String → Dict String → Dict String
stored_data n state d =
    assign key_expires_at n.expires_at (assign key_state state (assign key_next n.token d))

unfoldable pub with_next : NewToken → String → Secret → Secret
with_next n state sec = record sec { contents = stored_data n state sec.contents }

module _ (env : Env) where
  unfoldable pub renew_token : Secret → String → Exec Event NewToken
  unfolding ◌>>=◌
  renew_token sec state = do
    n ← call (λ t. env.issue t year) issued
    call (λ t. env.patch t sec (with_next n state)) (stored n state)
    pure n

  -- The delay after which the token is looked at again. A negative delay is none.
  unfoldable pub process_token : Secret → Exec Event ℕ
  unfolding ◌>>=◌ renew_token
  process_token sec = do
    state ← ask env.cluster_state
    decode ← look env.decode
    token ← local (find_token decode sec state)
    now ← look env.now
    branch (ltb token.expires_at (now + renewal_offset))
        (do n ← renew_token sec state; pure (n.ttl - renewal_offset))
        (pure (token.expires_at - now - renewal_offset))

  unfoldable pub reconcile : Exec Event Reply
  unfolding ◌>>=◌ process_token ignore_not_found
  reconcile =
      check (ask env.get)
        (λ e. pure (record { requeue_after = 0; error = ignore_not_found (some e) }))
        λ sec. do d ← process_token sec; pure (record { requeue_after = d; error = none })
