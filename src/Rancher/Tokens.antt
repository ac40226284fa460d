-- ===== src/Rancher/Tokens.antt =====
-- Which token is found, and that a renewed one is.
use grafana_tools.Base.{
  String, ℕ, List, [], ◌∷◌, ◌≡◌, ◌≢◌, refl, ◌⊎◌, arith, ◌<◌, ◌+◌, ◌-◌, eq_iff, Dict, index, assign,
  index-assign, index-assign_other, ◌∙◌,
}
use grafana_tools.Kube.Exec.{Answer, yields, Outcome, ok}
use grafana_tools.Rancher.{
  RancherToken, Secret, key_base_url, key_token, key_state, key_next, key_expires_at, find_token,
}
use grafana_tools.Rancher.Refresh.{
  NewToken, Event, issued, stored, Env, renewal_offset, with_next, process_token,
}

module _ (decode : String → Answer RancherToken) (sec : Secret) (state : String) where
  -- A token that is found is what the secret's token decodes to, or, where it was made in this state of
  -- the cluster, what the next token decodes to, and the other one expires no later.
  pub found_token :
      (t : RancherToken)
      → find_token decode sec state ≡ ok t
      → (decode (index sec.contents key_token) ≡ yields t)
        ⊎ ((decode (index sec.contents key_next) ≡ yields t)
            × (index sec.contents key_state ≡ state)
            × ((t0 : RancherToken)
                → decode (index sec.contents key_token) ≡ yields t0
                → t0.expires_at < t.expires_at))
  unfolding find_token
  found_token t h = ground (arith, h, eq_iff (index sec.contents key_state) state)

module _ (n : NewToken) (state : String) (sec : Secret) where
  abbrev next : Secret
  next = with_next n state sec

  abbrev with_token : Dict String
  with_token = assign key_next n.token sec.contents

  abbrev with_state : Dict String
  with_state = assign key_state state with_token

  next_contents :
      (index next.contents key_base_url ≡ index sec.contents key_base_url)
      × (index next.contents key_token ≡ index sec.contents key_token)
      × (index next.contents key_state ≡ state)
      × (index next.contents key_next ≡ n.token)
  unfolding with_next
  next_contents = (
    index-assign_other key_expires_at key_base_url n.expires_at with_state refl
        ∙ index-assign_other key_state key_base_url state with_token refl
        ∙ index-assign_other key_next key_base_url n.token sec.contents refl,
    index-assign_other key_expires_at key_token n.expires_at with_state refl
        ∙ index-assign_other key_state key_token state with_token refl
        ∙ index-assign_other key_next key_token n.token sec.contents refl,
    index-assign_other key_expires_at key_state n.expires_at with_state refl
        ∙ index-assign key_state state with_token,
    index-assign_other key_expires_at key_next n.expires_at with_state refl
        ∙ index-assign_other key_state key_next state with_token refl
        ∙ index-assign key_next n.token sec.contents,
  )

  -- A renewed token is found again: after the patch that stores it, the secret leads to the new token, as
  -- long as the cluster's state is the same and it decodes to one that expires later than the old one.
  pub find-renewed :
      (decode : String → Answer RancherToken) (old new : RancherToken)
      → index sec.contents key_base_url ≢ ""
      → index sec.contents key_token ≢ ""
      → n.token ≢ ""
      → decode (index sec.contents key_token) ≡ yields old
      → decode n.token ≡ yields new
      → old.expires_at < new.expires_at
      → find_token decode next state ≡ ok new
  unfolding find_token
  find-renewed decode old new url token made d0 d1 later =
      let (e0, e1, e2, e3) = next_contents in
      rw (e0, e1, e2, e3)
        (ground (
          arith,
          url,
          token,
          made,
          d0,
          d1,
          later,
          eq_iff (index sec.contents key_base_url) "",
          eq_iff (index sec.contents key_token) "",
          eq_iff n.token "",
          eq_iff state state,
        ))

-- How a round that ends with a delay has gone, newest call first.
abbrev pub EndsInTime : (now : ℕ) → RancherToken → String → Outcome ℕ × List Event → Type 0
EndsInTime now t state (ok d, stored n s (yields u) ∷ issued (yields n') ∷ []) =
    (t.expires_at < now + renewal_offset) × (n ≡ n') × (s ≡ state) × (d ≡ n.ttl - renewal_offset)
EndsInTime now t state (ok d, []) = now + d + renewal_offset ≡ t.expires_at
EndsInTime now t state (ok d, _) = ⊥
EndsInTime now t state _ = Unit

-- After a round that succeeds, either a token was issued and stored with the cluster's state, since the
-- old one had less than a day left, and the delay is a day less than its life; or nothing was issued,
-- and at the end of the delay the token has a day left.
pub renewal_in_time :
    (env : Env) (sec : Secret) (state : String) (t : RancherToken)
    → env.cluster_state [] ≡ yields state
    → find_token (env.decode []) sec state ≡ ok t
    → EndsInTime (env.now []) t state (process_token env sec [])
unfolding process_token
renewal_in_time env sec state t st found = ground (arith, st, found)
