-- ===== src/Kube/Exec.antt =====
-- Handlers as actions. A call of the cluster, of Grafana, of Perses or of the backend is answered by
-- the environment, which may look at all the calls made so far; calls that change something are
-- written down, the newest first. What was done before an error or a panic stays done.
pub mod Rules
pub mod Steps
pub mod Ensures
pub mod Keeps
use grafana_tools.Base.{String, Bool, true, false, List, [], ◌∷◌, ◌≡◌, refl}
use grafana_tools.Kube.{Error}

pub data Outcome (A : Type 0) : Type 0 where
  ok : A → Outcome A
  err : Error → Outcome A
  panic : String → Outcome A

-- What a call outside gives back: a value, or an error.
pub data Answer (A : Type 0) : Type 0 where
  yields : A → Answer A
  fails : Error → Answer A

abbrev pub outcome : {A : Type 0} → Answer A → Outcome A
outcome (yields a) = ok a
outcome (fails e) = err e

abbrev pub Exec : Type 0 → Type 0 → Type 0
Exec E A = List E → Outcome A × List E

module _ {E A : Type 0} where
  unfoldable pub pure : A → Exec E A
  pure a t = (ok a, t)

  unfoldable pub fail : Error → Exec E A
  fail e t = (err e, t)

  -- A nil dereference, a write to a nil map, an explicit `panic`.
  unfoldable pub crash : String → Exec E A
  crash m t = (panic m, t)

  -- A step that makes no call.
  unfoldable pub local : Outcome A → Exec E A
  local o t = (o, t)

  -- A look at the world that cannot fail.
  unfoldable pub look : (List E → A) → Exec E A
  look answer t = (ok (answer t), t)

  -- A call that changes nothing.
  unfoldable pub ask : (List E → Answer A) → Exec E A
  ask answer t = (outcome (answer t), t)

  -- A call that may change something: it is written down with its outcome.
  unfoldable pub call : (List E → Answer A) → (Answer A → E) → Exec E A
  call answer event t = let r = answer t in (outcome r, event r ∷ t)

  -- An `if` between two courses of action.
  unfoldable pub branch : Bool → Exec E A → Exec E A → Exec E A
  branch true m n t = m t
  branch false m n t = n t

unfoldable pub emit : {E : Type 0} → E → Exec E (Unit {0})
emit e t = (ok tt, e ∷ t)

module _ {E A B : Type 0} where
  unfoldable pub continue : Outcome A → (Error → Exec E B) → (A → Exec E B) → Exec E B
  continue (ok a) h f t = f a t
  continue (err e) h f t = h e t
  continue (panic m) h f t = (panic m, t)

  -- `x, err := m; if err != nil { return h(err) }; …`
  unfoldable pub check : Exec E A → (Error → Exec E B) → (A → Exec E B) → Exec E B
  unfolding continue
  check m h f t = let (r, t') = m t in continue r h f t'

  infixl 5 ◌>>=◌ ◌>>◌
  -- `x, err := m; if err != nil { return …, err }; …`. Opening this opens the other actions.
  unfoldable pub ◌>>=◌ : Exec E A → (A → Exec E B) → Exec E B
  unfolding check pure fail crash local look ask call emit branch
  m >>= f = check m fail f

  abbrev pub ◌>>◌ : Exec E A → Exec E B → Exec E B
  m >> n = m >>= λ _. n

-- `if err := m; err != nil { errs = append(errs, err) }`
unfoldable pub attempt : {E A : Type 0} → Exec E A → Exec E (List Error)
unfolding check pure
attempt m = check m (λ e. pure (e ∷ [])) (λ _. pure [])

module _ {E A B : Type 0} where
  -- A first step that is known to succeed.
  pub check_ok :
      (m : Exec E A) (h : Error → Exec E B) (f : A → Exec E B) (t : List E) (a : A) (t' : List E)
      → m t ≡ (ok a, t')
      → check m h f t ≡ f a t'
  unfolding check continue
  check_ok m h f t a t' e = rw e

module _ {E A B : Type 0} (P : Outcome B × List E → Type 0) where
  continue-holds :
      (r : Outcome A) (h : Error → Exec E B) (f : A → Exec E B) (t : List E)
      → ((e : Error) → P (h e t))
      → ((a : A) → P (f a t))
      → ((m : String) → P (panic m, t))
      → P (continue r h f t)
  unfolding continue
  continue-holds (ok a) h f t ph pf pp = pf a
  continue-holds (err e) h f t ph pf pp = ph e
  continue-holds (panic m) h f t ph pf pp = pp m

  -- What holds however the error is handled, and however the rest goes, holds of the whole.
  pub check-holds :
      (m : Exec E A) (h : Error → Exec E B) (f : A → Exec E B) (t : List E)
      → ((e : Error) (t' : List E) → P (h e t'))
      → ((a : A) (t' : List E) → P (f a t'))
      → ((why : String) (t' : List E) → P (panic why, t'))
      → P (check m h f t)
  unfolding check
  check-holds m h f t ph pf pp =
      let (r, t') = m t in continue-holds r h f t' (λ e. ph e t') (λ a. pf a t') (λ why. pp why t')

  local_continue :
      (o r : Outcome A) (h : Error → Exec E B) (f : A → Exec E B) (t : List E)
      → o ≡ r
      → ((e : Error) → o ≡ err e → P (h e t))
      → ((a : A) → o ≡ ok a → P (f a t))
      → ((m : String) → o ≡ panic m → P (panic m, t))
      → P (continue r h f t)
  unfolding continue
  local_continue o (ok a) h f t same ph pf pp = pf a same
  local_continue o (err e) h f t same ph pf pp = ph e same
  local_continue o (panic m) h f t same ph pf pp = pp m same

  -- A step that makes no call leaves the calls as they were, and its result is known.
  pub local-holds :
      (o : Outcome A) (h : Error → Exec E B) (f : A → Exec E B) (t : List E)
      → ((e : Error) → o ≡ err e → P (h e t))
      → ((a : A) → o ≡ ok a → P (f a t))
      → ((m : String) → o ≡ panic m → P (panic m, t))
      → P (check (local o) h f t)
  unfolding check local
  local-holds o h f t ph pf pp = local_continue o o h f t refl ph pf pp

  asked_continue :
      (o r : Answer A) (h : Error → Exec E B) (f : A → Exec E B) (t : List E)
      → o ≡ r
      → ((e : Error) → o ≡ fails e → P (h e t))
      → ((a : A) → o ≡ yields a → P (f a t))
      → P (continue (outcome r) h f t)
  unfolding continue
  asked_continue o (yields a) h f t same ph pf = pf a same
  asked_continue o (fails e) h f t same ph pf = ph e same

  -- The same of a call that changes nothing.
  pub ask-holds :
      (answer : List E → Answer A) (h : Error → Exec E B) (f : A → Exec E B) (t : List E)
      → ((e : Error) → answer t ≡ fails e → P (h e t))
      → ((a : A) → answer t ≡ yields a → P (f a t))
      → P (check (ask answer) h f t)
  unfolding check ask
  ask-holds answer h f t ph pf = asked_continue (answer t) (answer t) h f t refl ph pf
