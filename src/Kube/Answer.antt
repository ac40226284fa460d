-- ===== src/Kube/Answer.antt =====
-- Calls that only read, one after another; the first error ends them.
use grafana_tools.Base.{Bool, if◌then◌else◌}
use grafana_tools.Kube.{Error}
use grafana_tools.Kube.Exec.{Answer, yields, fails}

module _ {A B : Type 0} where
  infixl 5 ◌>>=◌ ◌>>◌
  unfoldable pub ◌>>=◌ : Answer A → (A → Answer B) → Answer B
  yields a >>= f = f a
  fails e >>= f = fails e

  abbrev pub ◌>>◌ : Answer A → Answer B → Answer B
  m >> n = m >>= λ _. n

-- `if is_bad { return …, err }`
abbrev pub refuse_if : Bool → Error → Answer (Unit {0})
refuse_if is_bad e = if is_bad then fails e else yields tt
