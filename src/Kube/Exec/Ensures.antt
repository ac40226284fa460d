-- ===== src/Kube/Exec/Ensures.antt =====
-- What holds of the value of every run that succeeds, and how it is carried through the steps of a
-- handler.
use grafana_tools.Base.{Bool, true, false, List, ◌≡◌, refl, arith}
use grafana_tools.Kube.Exec.{Outcome, ok, err, panic, Exec, pure, fail, branch, continue, ◌>>=◌}

module _ {E A : Type 0} where
  unfoldable pub Ensures : (A → Type 0) → Outcome A × List E → Type 0
  Ensures P (ok a, t) = P a
  Ensures P (err e, t) = Unit {0}
  Ensures P (panic m, t) = Unit {0}

  -- A run that succeeded.
  pub ensured :
      (P : A → Type 0) (o : Outcome A) (t : List E) (a : A) → o ≡ ok a → Ensures P (o, t) → P a
  unfolding Ensures
  ensured P (ok b) t a e h = ground (arith, e, h)
  ensured P (err x) t a e h = ground (arith, e)
  ensured P (panic m) t a e h = ground (arith, e)

  pub pure-Ensures : (P : A → Type 0) (a : A) (t : List E) → P a → Ensures P (pure a t)
  unfolding Ensures pure
  pure-Ensures P a t h = h

  pub weaken :
      (P Q : A → Type 0) (r : Outcome A × List E)
      → ((a : A) → r.0 ≡ ok a → P a → Q a)
      → Ensures P r
      → Ensures Q r
  unfolding Ensures
  weaken P Q (ok a, t) f h = f a refl h
  weaken P Q (err e, t) f h = tt
  weaken P Q (panic m, t) f h = tt

module _ {E A B : Type 0} (P : B → Type 0) where
  continue-Ensures :
      (r : Outcome A × List E) (f : A → Exec E B)
      → ((a : A) (t : List E) → r.0 ≡ ok a → Ensures P (f a t))
      → Ensures P (continue r.0 fail f r.1)
  unfolding Ensures continue fail
  continue-Ensures (ok a, t) f h = h a t refl
  continue-Ensures (err e, t) f h = tt
  continue-Ensures (panic m, t) f h = tt

  pub bind-Ensures :
      (m : Exec E A) (f : A → Exec E B) (t : List E)
      → ((a : A) (t' : List E) → (m t).0 ≡ ok a → Ensures P (f a t'))
      → Ensures P ((m >>= f) t)
  unfolding ◌>>=◌
  bind-Ensures m f t h = continue-Ensures (m t) f h

  known_continue :
      (Q : A → Type 0) (r : Outcome A × List E) (f : A → Exec E B)
      → Ensures Q r
      → ((a : A) (t : List E) → Q a → Ensures P (f a t))
      → Ensures P (continue r.0 fail f r.1)
  unfolding Ensures continue fail
  known_continue Q (ok a, t) f q h = h a t q
  known_continue Q (err e, t) f q h = tt
  known_continue Q (panic m, t) f q h = tt

  -- A first step of which something is ensured.
  pub known-Ensures :
      (Q : A → Type 0) (m : Exec E A) (f : A → Exec E B) (t : List E)
      → Ensures Q (m t)
      → ((a : A) (t' : List E) → Q a → Ensures P (f a t'))
      → Ensures P ((m >>= f) t)
  unfolding ◌>>=◌
  known-Ensures Q m f t q h = known_continue Q (m t) f q h

module _ {E B : Type 0} (P : B → Type 0) where
  pub branch-Ensures :
      (c : Bool) (m n : Exec E B) (t : List E)
      → Ensures P (m t)
      → Ensures P (n t)
      → Ensures P (branch c m n t)
  unfolding branch
  branch-Ensures true m n t pm pn = pm
  branch-Ensures false m n t pm pn = pn
