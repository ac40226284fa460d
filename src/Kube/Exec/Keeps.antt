-- ===== src/Kube/Exec/Keeps.antt =====
-- What holds of every call that an action makes, and how it is put together from its steps.
use grafana_tools.Base.{Bool, true, false, List, [], ◌∷◌, All, ◌≡◌, refl}
use grafana_tools.Kube.{Error}
use grafana_tools.Kube.Exec.{
  Answer, Outcome, ok, err, panic, Exec, pure, fail, ask, call, branch, attempt, continue, check,
  ◌>>=◌,
}

module _ {E : Type 0} (Fits : E → Type 0) where
  unfoldable pub Keeps : {A : Type 0} → Exec E A → Type 0
  Keeps m = (t : List E) → All Fits t → All Fits (m t).1

  pub fail-Keeps : (A : Type 0) (e : Error) → Keeps {A = A} (fail e)
  unfolding Keeps fail
  fail-Keeps A e t h = h

  module _ {A : Type 0} where
    pub pure-Keeps : (a : A) → Keeps (pure a)
    unfolding Keeps pure
    pure-Keeps a t h = h

    pub ask-Keeps : (answer : List E → Answer A) → Keeps (ask answer)
    unfolding Keeps ask
    ask-Keeps answer t h = h

    pub call-Keeps :
        (answer : List E → Answer A) (event : Answer A → E)
        → ((r : Answer A) → Fits (event r))
        → Keeps (call answer event)
    unfolding Keeps call
    call-Keeps answer event fits t h = (fits (answer t), h)

    pub branch-Keeps :
        (c : Bool) (m n : Exec E A)
        → (c ≡ true → Keeps m)
        → (c ≡ false → Keeps n)
        → Keeps (branch c m n)
    unfolding Keeps branch
    branch-Keeps true m n hm hn = hm refl
    branch-Keeps false m n hm hn = hn refl

  module _ {A B : Type 0} where
    continued :
        (o : Outcome A) (h : Error → Exec E B) (f : A → Exec E B) (t : List E)
        → ((e : Error) → Keeps (h e))
        → ((a : A) → Keeps (f a))
        → All Fits t
        → All Fits (continue o h f t).1
    unfolding Keeps continue
    continued (ok a) h f t kh kf k = kf a t k
    continued (err e) h f t kh kf k = kh e t k
    continued (panic m) h f t kh kf k = k

    pub check-Keeps :
        (m : Exec E A) (h : Error → Exec E B) (f : A → Exec E B)
        → Keeps m
        → ((e : Error) → Keeps (h e))
        → ((a : A) → Keeps (f a))
        → Keeps (check m h f)
    unfolding Keeps check
    check-Keeps m h f km kh kf t k = continued (m t).0 h f (m t).1 kh kf (km t k)

    pub bind-Keeps :
        (m : Exec E A) (f : A → Exec E B) → Keeps m → ((a : A) → Keeps (f a)) → Keeps (m >>= f)
    unfolding ◌>>=◌
    bind-Keeps m f km kf = check-Keeps m fail f km (fail-Keeps B) kf

  pub attempt-Keeps : {A : Type 0} (m : Exec E A) → Keeps m → Keeps (attempt m)
  unfolding attempt
  attempt-Keeps m km = check-Keeps m _ _ km (λ e. pure-Keeps (e ∷ [])) (λ a. pure-Keeps [])
