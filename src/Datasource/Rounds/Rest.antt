-- ===== src/Datasource/Rounds/Rest.antt =====
-- Where the rounds come to rest.
use grafana_tools.Base.{
  String, ℕ, true, false, Option, none, some, List, [], ◌∷◌, zero, suc, eqb, ◌≡◌, refl, ap, ◌∙◌,
  arith, contains,
}
use grafana_tools.Kube.{Error}
use grafana_tools.Datasource.{Datasource, finalizer, phase_failed, current}
use grafana_tools.Datasource.Rounds.{World, Library, round, rounds}

module _ (lib : Library)
    (documented : (d : Datasource)
      → lib.already_reconciled d ≡ eqb d.observed_generation d.generation)
    (kept : (fs : List String) → contains (lib.with_finalizer fs finalizer) finalizer ≡ true) where
  -- The object after the finalizer was added.
  abbrev pub guarded : World → World
  guarded w = record w {
    object = record w.object { finalizers = lib.with_finalizer w.object.finalizers finalizer };
  }

  first_round :
      (refusal : Option Error) (w : World)
      → w.object.is_deleted ≡ false
      → contains w.object.finalizers finalizer ≡ false
      → round lib refusal w ≡ guarded w
  unfolding round
  first_round refusal w live bare = ground (arith, live, bare)

  -- A reconciled object is left as it is.
  at_rest :
      (w : World)
      → w.object.is_deleted ≡ false
      → contains w.object.finalizers finalizer ≡ true
      → w.object.observed_generation ≡ w.object.generation
      → round lib none w ≡ w
  unfolding round
  at_rest w live held observed = ground (arith, live, held, observed, documented w.object)

  resting :
      (n : ℕ) (w : World)
      → w.object.is_deleted ≡ false
      → contains w.object.finalizers finalizer ≡ true
      → w.object.observed_generation ≡ w.object.generation
      → rounds lib n w ≡ w
  resting zero w live held observed = refl
  resting (suc n) w live held observed =
      ap (rounds lib n) (at_rest w live held observed) ∙ resting n w live held observed

  -- What the cluster and Grafana hold in the end.
  abbrev pub settled : World → World
  settled w = record {
    object = record w.object {
      finalizers = lib.with_finalizer w.object.finalizers finalizer;
      phase = current;
      reason = "Successfully created Grafana Datasource";
      observed_generation = w.object.generation;
      conditions = [];
      datasource_id = some w.next;
    };
    remote = (w.next, w.object.spec) ∷ w.remote;
    next = suc w.next;
  }

  second_round :
      (w : World)
      → w.object.is_deleted ≡ false
      → w.object.datasource_id ≡ none
      → eqb w.object.observed_generation w.object.generation ≡ false
      → round lib none (guarded w) ≡ settled w
  unfolding round
  second_round w live unknown stale =
      ground (arith, live, unknown, stale, documented (guarded w).object, kept w.object.finalizers)

  -- For a live datasource without the finalizer and without an id of Grafana, whose generation is
  -- not observed, where the libraries do as documented and Grafana accepts: two rounds bring it to
  -- rest, however many follow. Grafana then holds it once more, under the id that the status names,
  -- and the object is current.
  pub rounds-settled :
      (n : ℕ) (w : World)
      → w.object.is_deleted ≡ false
      → contains w.object.finalizers finalizer ≡ false
      → w.object.datasource_id ≡ none
      → eqb w.object.observed_generation w.object.generation ≡ false
      → rounds lib (suc (suc n)) w ≡ settled w
  rounds-settled n w live bare unknown stale =
      ap (λ x. rounds lib n (round lib none x)) (first_round none w live bare)
      ∙ ap (rounds lib n) (second_round w live unknown stale)
      ∙ resting n (settled w) live (kept w.object.finalizers) refl

  refused :
      (e : Error) (w : World)
      → w.object.is_deleted ≡ false
      → contains w.object.finalizers finalizer ≡ true
      → eqb w.object.observed_generation w.object.generation ≡ false
      → (id : Option ℕ) → w.object.datasource_id ≡ id
      → let r = round lib (some e) w in
        (r.object.phase ≡ phase_failed)
        × (r.object.observed_generation ≡ r.object.generation)
        × (r.object.finalizers ≡ w.object.finalizers)
        × (r.object.is_deleted ≡ false)
        × (r.remote ≡ w.remote)
  unfolding round
  refused e w live held stale none h = ground (arith, live, held, stale, h, documented w.object)
  refused e w live held stale (some id) h =
      ground (arith, live, held, stale, h, documented w.object)

  -- A live datasource with the finalizer whose generation is not observed, and that Grafana refuses
  -- once, stays failed, although Grafana accepts in every later round, and Grafana holds what it
  -- held: the status counts the generation as observed before Grafana is asked, so that the repeated
  -- run does nothing.
  pub refusal-IsFinal :
      (e : Error) (n : ℕ) (w : World)
      → w.object.is_deleted ≡ false
      → contains w.object.finalizers finalizer ≡ true
      → eqb w.object.observed_generation w.object.generation ≡ false
      → let r = rounds lib n (round lib (some e) w) in
        (r.object.phase ≡ phase_failed) × (r.remote ≡ w.remote)
  refusal-IsFinal e n w live held stale =
      let (failing, observed, same, alive, remote) =
        refused e w live held stale w.object.datasource_id refl in
      let still : rounds lib n (round lib (some e) w) ≡ round lib (some e) w =
        resting n (round lib (some e) w) alive (ap (λ fs. contains fs finalizer) same ∙ held)
          observed in
      (ap (λ r. r.object.phase) still ∙ failing, ap (λ r. r.remote) still ∙ remote)
