-- ===== src/Migrator/Once.antt =====
-- database/migrator.py, run_migrations: what a run records, and what a second run does.
use baste.Prelude.{
  ◌≡◌, refl, sym, subst, ap, ◌∙◌, Bool, true, false, Option, none, some, arith, List, [], ◌∷◌, ◌++◌,
  inl, inr, Bool-cases,
}
use baste.Text.{Text}
use baste.Charge.{mem_text}
use baste.Migrator.{
  Script, State, insert_name, insert_baseline, pending, run_statements, record_script,
  commit_script, run_script, run_pending, baseline, is_nil, run_migrations, split_statements,
}
use baste.Migrator.Names.{
  mem-append, names, insert_some, Recorded, pending-Recorded, covers, append_assoc, append_nil,
  baseline-names, baseline-Recorded,
}

module _ {S : Type 0} (run : Text → S → Option S) (rollback : S → S → S) where
  commit_done :
      (m : State S) (s : S) (o : Option (List Text))
      → (commit_script run rollback m s o).0 ≡ true
      → o ≡ some (commit_script run rollback m s o).1.applied
  unfolding commit_script
  commit_done m s none h = cc
  commit_done m s (some more) h = refl

  commit_failed :
      (m : State S) (s : S) (o : Option (List Text))
      → (commit_script run rollback m s o).0 ≡ false
      → (commit_script run rollback m s o).1.applied ≡ m.applied
  unfolding commit_script
  commit_failed m s none h = refl
  commit_failed m s (some more) h = cc

  record_done :
      (f : Script) (m : State S) (r : Bool × S)
      → (record_script run rollback f m r).0 ≡ true
      → (record_script run rollback f m r).1.applied ≡ m.applied ++ f.name ∷ []
  unfolding record_script
  record_done f m (false, s) h = cc
  record_done f m (true, s) h =
      insert_some f.name m.applied _ (commit_done m s (insert_name f.name m.applied) h)

  record_failed :
      (f : Script) (m : State S) (r : Bool × S)
      → (record_script run rollback f m r).0 ≡ false
      → (record_script run rollback f m r).1.applied ≡ m.applied
  unfolding record_script
  record_failed f m (false, s) h = refl
  record_failed f m (true, s) h = commit_failed m s (insert_name f.name m.applied) h

  script_done :
      (f : Script) (m : State S)
      → (run_script run rollback f m).0 ≡ true
      → (run_script run rollback f m).1.applied ≡ m.applied ++ f.name ∷ []
  unfolding run_script
  script_done f m h =
      record_done f m (run_statements run rollback (split_statements f.text) m.schema) h

  script_failed :
      (f : Script) (m : State S)
      → (run_script run rollback f m).0 ≡ false
      → (run_script run rollback f m).1.applied ≡ m.applied
  unfolding run_script
  script_failed f m h =
      record_failed f m (run_statements run rollback (split_statements f.text) m.schema) h

  pending_next :
      (f : Script) (l : List Script) (m : State S)
      → (run_script run rollback f m).0 ≡ true
      → run_pending run rollback (f ∷ l) m
        ≡ run_pending run rollback l (run_script run rollback f m).1
  unfolding run_pending
  pending_next f l m h = rw (run_pending, h)

  pending_stop :
      (f : Script) (l : List Script) (m : State S)
      → (run_script run rollback f m).0 ≡ false
      → run_pending run rollback (f ∷ l) m ≡ (false, (run_script run rollback f m).1)
  unfolding run_pending
  pending_stop f l m h = rw (run_pending, h)

  run_pending-names :
      (l : List Script) (m : State S)
      → (run_pending run rollback l m).0 ≡ true
      → (run_pending run rollback l m).1.applied ≡ m.applied ++ names l
  run_pending-names [] m h = unfold run_pending in sym (append_nil m.applied)
  run_pending-names (f ∷ l) m h = elim (Bool-cases (run_script run rollback f m).0) [
    | inl ok ↦
        let m' = (run_script run rollback f m).1 in
        let next = pending_next f l m ok in
        ap (λ r. r.1.applied) next
        ∙ (run_pending-names l m' (rw next at h)
            ∙ (ap (λ a. a ++ names l) (script_done f m ok)
                ∙ append_assoc m.applied (f.name ∷ []) (names l)))
    | inr stop ↦ cc (pending_stop f l m stop)
  ]

  -- A run of pending scripts that raises, taken apart at the script that failed.
  abbrev pub Stopped : List Script → State S → State S → Type 0
  Stopped l m m' =
      (before : List Script) × (f : Script) × (after : List Script) × (mid : State S) × (l
        ≡ before ++ f ∷ after)
      × (run_pending run rollback before m ≡ (true, mid))
      × (run_script run rollback f mid ≡ (false, m'))
      × (m'.applied ≡ m.applied ++ names before)

  pair_of : (r : Bool × State S) → r.0 ≡ false → r ≡ (false, r.1)
  pair_of (b, m) h = ap (λ c. (c, m)) h

  run_pending-Stopped :
      (l : List Script) (m : State S)
      → (run_pending run rollback l m).0 ≡ false
      → Stopped l m (run_pending run rollback l m).1
  run_pending-Stopped [] m h = unfold run_pending in cc
  run_pending-Stopped (f ∷ l) m h = elim (Bool-cases (run_script run rollback f m).0) [
    | inl ok ↦
        let m' = (run_script run rollback f m).1 in
        let next = pending_next f l m ok in
        let (before, g, after, mid, e, ran, failed, kept) =
          run_pending-Stopped l m' (rw next at h) in
        rw next (
          f ∷ before,
          g,
          after,
          mid,
          ap (λ r. f ∷ r) e,
          pending_next f before m ok ∙ ran,
          failed,
          kept
              ∙ (ap (λ a. a ++ names before) (script_done f m ok)
                  ∙ append_assoc m.applied (f.name ∷ []) (names before)),
        )
    | inr stop ↦ rw (pending_stop f l m stop) (
      [],
      f,
      l,
      m,
      refl,
      unfold run_pending in refl,
      pair_of (run_script run rollback f m) stop,
      script_failed f m stop ∙ sym (append_nil m.applied),
    )
  ]

  first_run :
      (f : Script) (l : List Script) (m : State S)
      → is_nil m.applied ≡ true
      → run_migrations run rollback (f ∷ l) m ≡ baseline run rollback (insert_baseline (f ∷ l) []) m
  unfolding run_migrations
  first_run f l m h = rw (run_migrations, h)

  later_run :
      (f : Script) (l : List Script) (m : State S)
      → is_nil m.applied ≡ false
      → run_migrations run rollback (f ∷ l) m
        ≡ run_pending run rollback (pending m.applied (f ∷ l)) m
  unfolding run_migrations
  later_run f l m h = rw (run_migrations, h)

  -- With every name in the table, a run does nothing.
  run-Recorded :
      (f : Script) (l : List Script) (m : State S)
      → Recorded m.applied (f ∷ l)
      → run_migrations run rollback (f ∷ l) m ≡ (true, m)
  run-Recorded f l m h =
      later_run f l m (there m.applied h.0)
      ∙ rw (pending-Recorded m.applied (f ∷ l) h) (unfold run_pending in refl)
    where
      there : (a : List Text) → mem_text f.name a ≡ true → is_nil a ≡ false
      there [] e = unfold mem_text in cc
      there (x ∷ a) e = unfold is_nil in refl

  baseline_done :
      (f : Script) (l : List Script) (m : State S) (o : Option (List Text))
      → insert_baseline (f ∷ l) [] ≡ o
      → (baseline run rollback o m).0 ≡ true
      → Recorded (baseline run rollback o m).1.applied (f ∷ l)
  unfolding baseline
  baseline_done f l m none e h = cc
  baseline_done f l m (some more) e h =
      subst (λ a. Recorded a (f ∷ l)) (sym (baseline-names (f ∷ l) [] more e))
        (baseline-Recorded (f ∷ l))

  run_migrations-Recorded :
      (f : Script) (l : List Script) (m : State S)
      → (run_migrations run rollback (f ∷ l) m).0 ≡ true
      → Recorded (run_migrations run rollback (f ∷ l) m).1.applied (f ∷ l)
  run_migrations-Recorded f l m h = elim (Bool-cases (is_nil m.applied)) [
    | inl first ↦
        let e = first_run f l m first in
        subst (λ r. Recorded r.1.applied (f ∷ l)) (sym e)
          (baseline_done f l m (insert_baseline (f ∷ l) []) refl (ap (λ r. r.0) (sym e) ∙ h))
    | inr known ↦
        let todo = pending m.applied (f ∷ l) in
        let e = later_run f l m known in
        subst (λ a. Recorded a (f ∷ l))
          (sym (ap (λ r. r.1.applied) e ∙ run_pending-names todo m (ap (λ r. r.0) (sym e) ∙ h)))
          (covers (f ∷ l) m.applied (m.applied ++ names todo)
            (λ x e. rw mem-append (ground (arith, e))) (λ x e. rw mem-append (ground (arith, e))))
  ]

  -- After a run that returns, all scripts of the folder are recorded, so a second run over the same
  -- folder executes nothing and changes nothing.
  pub run_migrations_twice :
      (files : List Script) (m : State S)
      → (run_migrations run rollback files m).0 ≡ true
      → run_migrations run rollback files (run_migrations run rollback files m).1
        ≡ (true, (run_migrations run rollback files m).1)
  run_migrations_twice [] m h = unfold run_migrations in refl
  run_migrations_twice (f ∷ l) m h =
      run-Recorded f l (run_migrations run rollback (f ∷ l) m).1 (run_migrations-Recorded f l m h)

  -- A run over a database with recorded scripts that raises has stopped at a script whose name was not
  -- recorded: those before it were run and recorded in their order, it is not recorded, and none after
  -- it was run.
  pub run_migrations-Stopped :
      (files : List Script) (m : State S)
      → is_nil m.applied ≡ false
      → (run_migrations run rollback files m).0 ≡ false
      → Stopped (pending m.applied files) m (run_migrations run rollback files m).1
  run_migrations-Stopped [] m known h = unfold run_migrations in cc
  run_migrations-Stopped (f ∷ l) m known h =
      let e = later_run f l m known in
      subst (λ r. Stopped (pending m.applied (f ∷ l)) m r.1) (sym e)
        (run_pending-Stopped (pending m.applied (f ∷ l)) m (ap (λ r. r.0) (sym e) ∙ h))
