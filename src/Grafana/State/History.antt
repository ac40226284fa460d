-- ===== src/Grafana/State/History.antt =====
-- The cache of fingerprints beside the history of the calls.
use grafana_tools.Base.{
  String, Bool, true, false, Option, none, some, List, [], ◌∷◌, ◌≡◌, refl, subst, ap, arith, ◌&&◌,
  ◌==◌, eqb, eq_iff, Bool-cases, inl, inr, if◌then◌else◌,
}
use grafana_tools.Kube.Exec.{Answer}
use grafana_tools.Grafana.State.{
  AppBinding, StateKey, StateMap, state_key, remembered, compute_grafana, compute_perses, memo,
  grafana_state, perses_state,
}

-- A call of `GrafanaState` or of `PersesState`.
pub data Call : Type 0 where
  of_grafana of_perses : AppBinding → Call

abbrev pub subject : Call → AppBinding
subject (of_grafana ab) = ab
subject (of_perses ab) = ab

abbrev pub same_key : StateKey → StateKey → Bool
same_key j k = (j.uid == k.uid) && eqb j.generation k.generation

abbrev or_else : {A : Type 0} → Option A → Option A → Option A
or_else none b = b
or_else (some a) b = some a

kept : {A : Type 0} (a : Option A) → a ≡ or_else a none
kept none = refl
kept (some a) = refl

glue :
    {A : Type 0} (b : Bool) (a : Option A) (x : A) (rest : Option A)
    → or_else (or_else a (if b then some x else none)) rest ≡ or_else a (if b then some x else rest)
glue true none x rest = refl
glue false none x rest = refl
glue b (some a) x rest = refl

module _ (hash : String → String) where
  abbrev pub computed : Call → Answer String
  computed (of_grafana ab) = compute_grafana hash ab
  computed (of_perses ab) = compute_perses hash ab

  abbrev pub answer : Call → StateMap → StateMap × Answer String
  answer (of_grafana ab) m = grafana_state hash ab m
  answer (of_perses ab) m = perses_state hash ab m

  -- The map after calls, the first one first.
  abbrev pub after : List Call → StateMap → StateMap
  after [] m = m
  after (c ∷ calls) m = after calls (answer c m).0

  -- What the first call with a key computed.
  abbrev pub first : StateKey → List Call → Option (Answer String)
  first k [] = none
  first k (c ∷ calls) =
      if same_key (state_key (subject c)) k then some (computed c) else first k calls

  abbrev pub or_computed : Call → Option (Answer String) → Answer String
  or_computed c none = computed c
  or_computed c (some r) = r

  same-eq : (j k : StateKey) → same_key j k ≡ true → j ≡ k
  same-eq j k h = ground (arith, eq_iff j.uid k.uid, h)

  answered :
      (c : Call) (m : StateMap)
      → answer c m ≡ memo hash (subject c) (computed c) m (remembered (state_key (subject c)) m)
  unfolding grafana_state perses_state
  answered (of_grafana ab) m = refl
  answered (of_perses ab) m = refl

  remembered-memo :
      (c : Call) (m : StateMap) (k : StateKey) (r : Option (Answer String))
      → remembered (state_key (subject c)) m ≡ r
      → remembered k (memo hash (subject c) (computed c) m r).0
        ≡ or_else
            (remembered k m)
            (if same_key (state_key (subject c)) k then some (computed c) else none)
  unfolding remembered
  remembered-memo c m k (some r) h = elim (Bool-cases (same_key (state_key (subject c)) k)) [
    | inl e ↦ rw (e, subst (λ j. remembered j m ≡ some r) (same-eq _ k e) h) refl
    | inr e ↦ rw e (kept (remembered k m))
  ]
  remembered-memo c m k none h = elim (Bool-cases (same_key (state_key (subject c)) k)) [
    | inl e ↦ rw (e, subst (λ j. remembered j m ≡ none) (same-eq _ k e) h) refl
    | inr e ↦ rw e (kept (remembered k m))
  ]

  remembered-after :
      (calls : List Call) (m : StateMap) (k : StateKey)
      → remembered k (after calls m) ≡ or_else (remembered k m) (first k calls)
  remembered-after [] m k = kept (remembered k m)
  remembered-after (c ∷ calls) m k =
      rw
        (
          remembered-after calls (answer c m).0 k,
          answered c m,
          remembered-memo c m k (remembered (state_key (subject c)) m) refl,
        )
        (glue (same_key (state_key (subject c)) k) (remembered k m) (computed c) (first k calls))

  memo-answer :
      (c : Call) (m : StateMap) (r : Option (Answer String))
      → (memo hash (subject c) (computed c) m r).1 ≡ or_computed c r
  memo-answer c m none = refl
  memo-answer c m (some r) = refl

  -- After any calls, from the empty map, a call is answered with what the first call for an AppBinding of
  -- the same uid and generation computed, itself included, whether it was of the same function or of the
  -- other.
  pub answer-first :
      (calls : List Call) (c : Call)
      → (answer c (after calls [])).1 ≡ or_computed c (first (state_key (subject c)) calls)
  unfolding remembered
  answer-first calls c =
      rw (answered c (after calls []), memo-answer c (after calls []) _)
        (ap (or_computed c) (remembered-after calls [] (state_key (subject c))))
