-- ===== src/Hub/Sent.antt =====
-- What a call of the hub sends, and when it succeeds.
use grafana_tools.Base.{
  String, ℕ, Bool, true, false, Option, none, some, List, [], ◌∷◌, ◌≡◌, refl, arith, ◌==◌, concat,
  eqb, if◌then◌else◌,
}
use grafana_tools.Kube.{Error}
use grafana_tools.Kube.Exec.{Answer, yields, fails, Outcome, ok, err, outcome, ask, ◌>>=◌}
use grafana_tools.Kube.Exec.Steps.{ask-bind, call-bind, bind-bind}
use grafana_tools.Net.{Client, Response}
use grafana_tools.Hub.{
  Backend, grafana, perses, Operation, Request, api_path, request, register_answer,
  unregister_answer, decoded,
}
use grafana_tools.Hub
use grafana_tools.Hub.Calls.{
  Event, sent, Env, post, register, register_perses, unregister, unregister_perses,
}

abbrev pub authorization_for : String → Option String
authorization_for token = if token == "" then none else some (concat "Bearer " token)

module _ {Context Config G P : Type 0} (env : Env Context Config G P) (c : Client) where
  -- The one request that a call may send.
  pub record Fits (op : Operation) (b : Backend) (payload : Answer String) (q : Request)
      : Type 0 where
    pub body : payload ≡ yields q.body
    pub url : env.address c.base_url (api_path op b) ≡ yields q.url
    pub authorization : q.authorization ≡ authorization_for c.token

  module _ {A : Type 0} (op : Operation) (b : Backend) (payload : Answer String)
      (Read : Response → A → Type 0) where
    -- How a call ends, with what it sent.
    pub data Posted : Outcome A × List Event → Type 0 where
      unsent : (e : Error) → Posted (err e, [])
      failed :
          (q : Request) (r : Answer Response) (e : Error)
          → Fits op b payload q
          → Posted (err e, sent q r ∷ [])
      accepted :
          (q : Request) (r : Response) (a : A)
          → Fits op b payload q
          → r.status ≡ 200
          → Read r a
          → Posted (ok a, sent q (yields r) ∷ [])

    request-Fits :
        (address : Answer String) (body : String) (q : Request)
        → payload ≡ yields body
        → env.address c.base_url (api_path op b) ≡ address
        → request (env.address c.base_url) c.token op b body ≡ yields q
        → Fits op b payload q
    unfolding request
    request-Fits (yields url) body q e f g = record {
      body = ground (arith, e, f, g);
      url = ground (arith, e, f, g);
      authorization = ground (arith, e, f, g);
    }
    request-Fits (fails x) body q e f g = absurd (ground (arith, f, g))

    answered :
        (q : Request) (r : Response) (o : Answer A)
        → Fits op b payload q
        → ((a : A) → o ≡ yields a → (r.status ≡ 200) × Read r a)
        → Posted (outcome o, sent q (yields r) ∷ [])
    answered q r (fails e) fits h = failed q (yields r) e fits
    answered q r (yields a) fits h = let (s, read) = h a refl in accepted q r a fits s read

    post-Posted :
        (read : Response → Answer A)
        → ((r : Response) (a : A) → read r ≡ yields a → (r.status ≡ 200) × Read r a)
        → Posted ((post env c op b payload >>= λ r. ask (λ t. read r)) [])
    unfolding post ask
    post-Posted read h = bind-bind Posted _ _ _ _ (
        ask-bind Posted _ _ _ (λ e _. unsent e)
          λ body pe. bind-bind Posted _ _ _ _ (
            ask-bind Posted _ _ _ (λ e _. unsent e)
              λ q qe.
                let fits =
                  request-Fits (env.address c.base_url (api_path op b)) body q pe refl qe in
                call-bind Posted _ _ _ _ (λ e _. failed q (fails e) e fits)
                  λ r _. answered q r (read r) fits (h r)))

  -- The value is read of the body.
  abbrev pub Decoded : {A : Type 0} → (String → Answer A) → Answer String → A → Type 0
  Decoded decode (fails e) a = ⊥
  Decoded decode (yields body) a = decode body ≡ yields a

  module _ {A : Type 0} (decode : String → Answer A) (refused : ℕ → String → Error) where
    decoded-Decoded :
        (is_ok : Bool) (r : Response) (body : Answer String) (a : A)
        → eqb r.status 200 ≡ is_ok
        → decoded r.status decode refused body ≡ yields a
        → (r.status ≡ 200) × Decoded decode body a
    decoded-Decoded is_ok r (fails e) a s h = absurd (ground (arith, h))
    decoded-Decoded true r (yields body) a s h = (ground (arith, s), ground (arith, s, h))
    decoded-Decoded false r (yields body) a s h = absurd (ground (arith, s, h))

    register-Decoded :
        (r : Response) (a : A)
        → register_answer decode refused r ≡ yields a
        → (r.status ≡ 200) × Decoded decode r.body a
    unfolding register_answer
    register-Decoded r a h = decoded-Decoded (eqb r.status 200) r r.body a refl h

  unregister-accepted :
      (refused : ℕ → String → Error) (r : Response) (u : Unit {0})
      → unregister_answer refused r ≡ yields u
      → (r.status ≡ 200) × Unit {0}
  unfolding unregister_answer
  unregister-accepted refused r u h = (ground (arith, h), tt)

  -- Whatever the network answers, each of the four calls sends at most one request, with the payload and
  -- the token of the client to the path of that call; it never panics, and it succeeds only where that
  -- request was answered with 200, a registration with what the body of the answer is decoded to.
  pub calls-Posted :
      (ctx : Context) (cfg : Config)
      → let registration = env.encode ctx cfg in
        let context = env.encode_context ctx in
        Posted Hub.register grafana registration
          (λ r. Decoded env.decode_grafana r.body)
          (register env c ctx cfg [])
        × Posted Hub.register perses registration
            (λ r. Decoded env.decode_perses r.body)
            (register_perses env c ctx cfg [])
        × Posted Hub.unregister grafana context (λ r u. Unit {0}) (unregister env c ctx [])
        × Posted Hub.unregister perses context (λ r u. Unit {0}) (unregister_perses env c ctx [])
  unfolding register register_perses unregister unregister_perses
  calls-Posted ctx cfg = (
    post-Posted _ _ _ _ _ (register-Decoded env.decode_grafana _),
    post-Posted _ _ _ _ _ (register-Decoded env.decode_perses _),
    post-Posted _ _ _ _ _ (unregister-accepted (env.refused "DELETE")),
    post-Posted _ _ _ _ _ (unregister-accepted (env.refused "DELETE")),
  )
