-- ===== src/Kube/Exec/Steps.antt =====
-- The rules by which a property of how a run ends is carried through the steps of a handler: `P` is of
-- the outcome and the calls. A predicate that is closed where they are used is found by unification.
use grafana_tools.Base.{String, Bool, true, false, List, ◌∷◌, ◌≡◌, refl}
use grafana_tools.Kube.{Error}
use grafana_tools.Kube.Exec.{
  Answer, yields, fails, Outcome, ok, err, panic, outcome, Exec, pure, fail, ask, look, call,
  branch, continue, ◌>>=◌,
}
use grafana_tools.Kube.Exec.Rules.{IsQuiet}

module _ {E A B : Type 0} (P : Outcome B × List E → Type 0) where
  quiet_continue :
      (o : Outcome A) (t t' : List E) (f : A → Exec E B)
      → t' ≡ t
      → ((e : Error) → P (err e, t))
      → ((a : A) → P (f a t))
      → ((why : String) → P (panic why, t))
      → P (continue o fail f t')
  unfolding continue fail
  quiet_continue (ok a) t t' f e pe pf pp = rw e (pf a)
  quiet_continue (err x) t t' f e pe pf pp = rw e (pe x)
  quiet_continue (panic m) t t' f e pe pf pp = rw e (pp m)

  pub quiet-bind :
      (m : Exec E A) (f : A → Exec E B) (t : List E)
      → IsQuiet m
      → ((e : Error) → P (err e, t))
      → ((why : String) → P (panic why, t))
      → ((a : A) → P (f a t))
      → P ((m >>= f) t)
  unfolding ◌>>=◌
  quiet-bind m f t quiet pe pp pf = quiet_continue (m t).0 t (m t).1 f (quiet t) pe pf pp

  called_continue :
      (o r : Answer A) (event : Answer A → E) (f : A → Exec E B) (t : List E)
      → o ≡ r
      → ((e : Error) → o ≡ fails e → P (err e, event (fails e) ∷ t))
      → ((a : A) → o ≡ yields a → P (f a (event (yields a) ∷ t)))
      → P (continue (outcome r) fail f (event r ∷ t))
  unfolding continue fail
  called_continue o (yields a) event f t same pe pf = pf a same
  called_continue o (fails e) event f t same pe pf = pe e same

  pub call-bind :
      (answer : List E → Answer A) (event : Answer A → E) (f : A → Exec E B) (t : List E)
      → ((e : Error) → answer t ≡ fails e → P (err e, event (fails e) ∷ t))
      → ((a : A) → answer t ≡ yields a → P (f a (event (yields a) ∷ t)))
      → P ((call answer event >>= f) t)
  unfolding ◌>>=◌
  call-bind answer event f t pe pf = called_continue (answer t) (answer t) event f t refl pe pf

  asked_continue :
      (o r : Answer A) (f : A → Exec E B) (t : List E)
      → o ≡ r
      → ((e : Error) → o ≡ fails e → P (err e, t))
      → ((a : A) → o ≡ yields a → P (f a t))
      → P (continue (outcome r) fail f t)
  unfolding continue fail
  asked_continue o (yields a) f t same pe pf = pf a same
  asked_continue o (fails e) f t same pe pf = pe e same

  pub ask-bind :
      (answer : List E → Answer A) (f : A → Exec E B) (t : List E)
      → ((e : Error) → answer t ≡ fails e → P (err e, t))
      → ((a : A) → answer t ≡ yields a → P (f a t))
      → P ((ask answer >>= f) t)
  unfolding ◌>>=◌
  ask-bind answer f t pe pf = asked_continue (answer t) (answer t) f t refl pe pf

  pub look-bind :
      (answer : List E → A) (f : A → Exec E B) (t : List E)
      → P (f (answer t) t)
      → P ((look answer >>= f) t)
  unfolding ◌>>=◌ continue
  look-bind answer f t h = h

  pub branch-bind :
      (c : Bool) (m n : Exec E A) (f : A → Exec E B) (t : List E)
      → (c ≡ true → P ((m >>= f) t))
      → (c ≡ false → P ((n >>= f) t))
      → P ((branch c m n >>= f) t)
  unfolding ◌>>=◌
  branch-bind true m n f t pm pn = pm refl
  branch-bind false m n f t pm pn = pn refl

  pub pure-bind : (a : A) (f : A → Exec E B) (t : List E) → P (f a t) → P ((pure a >>= f) t)
  unfolding ◌>>=◌ continue
  pure-bind a f t h = h

module _ {E B : Type 0} (P : Outcome B × List E → Type 0) where
  pub branch-holds :
      (c : Bool) (m n : Exec E B) (t : List E)
      → (c ≡ true → P (m t))
      → (c ≡ false → P (n t))
      → P (branch c m n t)
  unfolding branch
  branch-holds true m n t pm pn = pm refl
  branch-holds false m n t pm pn = pn refl

module _ {E A B C : Type 0} (P : Outcome C × List E → Type 0) where
  nested_continue :
      (o : Outcome A) (t : List E) (g : A → Exec E B) (f : B → Exec E C)
      → P (continue o fail (λ a. g a >>= f) t)
      → P (continue (continue o fail g t).0 fail f (continue o fail g t).1)
  unfolding ◌>>=◌ continue
  nested_continue (ok a) t g f h = h
  nested_continue (err e) t g f h = h
  nested_continue (panic m) t g f h = h

  pub bind-bind :
      (m : Exec E A) (g : A → Exec E B) (f : B → Exec E C) (t : List E)
      → P ((m >>= λ a. g a >>= f) t)
      → P (((m >>= g) >>= f) t)
  unfolding ◌>>=◌
  bind-bind m g f t h = nested_continue (m t).0 (m t).1 g f h
