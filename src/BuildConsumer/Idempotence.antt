-- ===== src/BuildConsumer/Idempotence.antt =====
-- Redelivered messages: they change no finished build, and only finished builds are acknowledged.
use mini_serverless_cloud_pl.Base.{
  find, rewrite_where, find_sound, find-rewrite_self, find-rewrite_other, Result, ok, ℕ, String,
  ◌≡◌, refl, sym, ap, ◌∙◌, subst, ◌≢◌, true, false, some, List, [], ◌∷◌, arith,
}
use mini_serverless_cloud_pl.Schema.{Build, Database}
use mini_serverless_cloud_pl.Prisma.{Prisma, IsPrisma}
use mini_serverless_cloud_pl.Build.{BuildExecutor, succeeded, gave_up, has_id, run_build}
use mini_serverless_cloud_pl.Build.Runs.{with_version, with_failure, run_build-Ran, Ran}
use mini_serverless_cloud_pl.BuildConsumer.{
  is_finished, build_id_of, handle_message, process, Work, Delivery,
}
use mini_serverless_cloud_pl.BuildConsumer.Redelivery.{
  IsRow, IsDone, handle_message-Handled, Handled,
}

IsRow-id : (id : ℕ) (b : Build) (db : Database) → IsRow id b db → b.id ≡ id
IsRow-id id b db row = let (hit, _) = find_sound (has_id id) db.builds b row in ground arith

apart : {id k : ℕ} (b : Build) → id ≢ k → has_id id b ≡ true → has_id k b ≡ false
apart b n h = ground arith

other_row :
    (b : Build) (change : Build → Build) (id : ℕ) (rows : List Build)
    → ((x : Build) → (change x).id ≡ x.id)
    → b.id ≢ id
    → find (has_id id) (rewrite_where (has_id b.id) change rows) ≡ find (has_id id) rows
other_row b change id rows keeps n =
    find-rewrite_other (has_id b.id) (has_id id) change rows
      (λ x h. (apart x n h, rw (keeps x) (apart x n h)))

own_row :
    (b : Build) (change : Build → Build) (id : ℕ) (db : Database)
    → ((x : Build) → has_id b.id (change x) ≡ has_id b.id x)
    → IsRow id b db
    → find (has_id id) (rewrite_where (has_id b.id) change db.builds) ≡ some (change b)
own_row b change id db keeps row =
    subst (λ k. find (has_id k) (rewrite_where (has_id b.id) change db.builds) ≡ some (change b))
      (IsRow-id id b db row)
      (find-rewrite_self (has_id b.id) change db.builds b keeps
        (subst (λ k. find (has_id k) db.builds ≡ some b) (sym (IsRow-id id b db row)) row))

module _ (P : Prisma) (build : BuildExecutor) (now : ℕ) (real : IsPrisma P) where
  pub run_build-IsDone :
      (id : ℕ) (b : Build) (db db' : Database)
      → IsRow id b db
      → run_build P build now b db ≡ (ok tt, db')
      → (c : Build) × IsDone id c db'
  run_build-IsDone id b db db' row e = go (run_build-Ran P build now b db real) e
    where
      go :
          {r : Result (Unit {0}) × Database}
          → Ran P build now b db r
          → r ≡ (ok tt, db')
          → (c : Build) × IsDone id c db'
      go (Ran.made f n image_ref k created_at found next built free there q) e₁ =
          let same : with_version b n image_ref now k created_at db ≡ db' = cc in
          rw (← same) (succeeded image_ref now b, (own_row b _ id db (λ x. refl) row, refl))
      go (Ran.marked_failed m there q) e₁ =
          let same : with_failure b m now db ≡ db' = cc in
          rw (← same) (gave_up m now b, (own_row b _ id db (λ x. refl) row, refl))
      go (Ran.thrown x m fails said q) e₁ = cc

  run_build-IsRow :
      (id : ℕ) (b c : Build) (db : Database)
      → b.id ≢ id
      → IsRow id c db
      → IsRow id c (run_build P build now b db).1
  run_build-IsRow id b c db n row = go (run_build-Ran P build now b db real)
    where
      go : {r : Result (Unit {0}) × Database} → Ran P build now b db r → IsRow id c r.1
      go (Ran.made f k image_ref i created_at found next built free there q) =
          rw q (other_row b _ id db.builds (λ x. refl) n ∙ row)
      go (Ran.marked_failed m there q) = rw q (other_row b _ id db.builds (λ x. refl) n ∙ row)
      go (Ran.thrown x m fails said q) = rw q row

  module _ (xack : Result (Unit {0})) (message_id : String) (fields : List String) (w : Work) where
    -- A message is acknowledged only when the build that it names is finished by then.
    pub handle_message_acked :
        (acked : List String)
        → (handle_message P build now xack message_id fields w).1.acked ≡ acked
        → acked ≢ w.acked
        → (id : ℕ) × (c : Build) × (build_id_of fields ≡ some id)
          × IsDone id c (handle_message P build now xack message_id fields w).1.database
    handle_message_acked acked e new =
        go (handle_message-Handled P build now real xack message_id fields w) e
      where
        go :
            {r : Result (Unit {0}) × Work}
            → Handled P build now xack message_id fields w r
            → r.1.acked ≡ acked
            → (id : ℕ) × (c : Build) × (build_id_of fields ≡ some id) × IsDone id c r.1.database
        go (Handled.unreadable why q) e₁ = absurd (new (sym (rw q at e₁)))
        go (Handled.skipped id b named row q) e₁ = rw q (id, b, named, row)
        go (Handled.ran id b db' named row unfinished run q) e₁ =
            let (c, finished) = run_build-IsDone id b w.database db' row run in
            rw q (id, c, named, finished)
        go (Handled.crashed id b x db' named row unfinished run q) e₁ =
            absurd (new (sym (rw q at e₁)))

    -- A message of a build that is finished changes nothing in the database.
    pub handle_message_finished :
        (id : ℕ) (b : Build)
        → build_id_of fields ≡ some id
        → IsDone id b w.database
        → (handle_message P build now xack message_id fields w).1.database ≡ w.database
    handle_message_finished id b named (row, finished) =
        go (handle_message-Handled P build now real xack message_id fields w)
      where
        go :
            {r : Result (Unit {0}) × Work}
            → Handled P build now xack message_id fields w r
            → r.1.database ≡ w.database
        go (Handled.unreadable why q) = rw q refl
        go (Handled.skipped _ _ _ _ q) = rw q refl
        go (Handled.ran k c db' named₁ row₁ unfinished run q) =
            let same_id : k ≡ id = cc in let same : c ≡ b = cc (rw same_id at row₁) in absurd (cc)
        go (Handled.crashed k c x db' named₁ row₁ unfinished run q) =
            let same_id : k ≡ id = cc in let same : c ≡ b = cc (rw same_id at row₁) in absurd (cc)

    pub handle_message-IsDone :
        (id : ℕ) (b : Build)
        → IsDone id b w.database
        → IsDone id b (handle_message P build now xack message_id fields w).1.database
    handle_message-IsDone id b (row, finished) =
        go (handle_message-Handled P build now real xack message_id fields w)
      where
        ran_row :
            (k : ℕ) (c : Build)
            → IsRow k c w.database
            → is_finished c.status ≡ false
            → IsRow id b (run_build P build now c w.database).1
        ran_row k c row₁ unfinished =
            run_build-IsRow id c b w.database
              (λ same.
                let at_id : k ≡ id = sym (IsRow-id k c w.database row₁) ∙ same in
                let it : c ≡ b = cc (rw at_id at row₁) in cc)
              row

        go :
            {r : Result (Unit {0}) × Work}
            → Handled P build now xack message_id fields w r
            → IsDone id b r.1.database
        go (Handled.unreadable why q) = rw q (row, finished)
        go (Handled.skipped _ _ _ _ q) = rw q (row, finished)
        go (Handled.ran k c db' named₁ row₁ unfinished run q) =
            rw q (rw run at (ran_row k c row₁ unfinished), finished)
        go (Handled.crashed k c x db' named₁ row₁ unfinished run q) =
            rw q (rw run at (ran_row k c row₁ unfinished), finished)

module _ (P : Prisma) (build : BuildExecutor) (real : IsPrisma P) where
  -- A build that is finished keeps its row, with its status and its image, through any sequence of
  -- messages that are handled one after another.
  pub process-IsDone :
      (ds : List Delivery) (w : Work) (id : ℕ) (b : Build)
      → IsDone id b w.database
      → IsDone id b (process P build ds w).database
  unfolding process
  process-IsDone [] w id b finished = finished
  process-IsDone (d ∷ ds) w id b finished =
      process-IsDone ds (handle_message P build d.now d.xack d.message_id d.fields w).1 id b
        (handle_message-IsDone P build d.now real d.xack d.message_id d.fields w id b finished)

  -- A message that has been acknowledged may be handled again, at any time: that changes nothing in
  -- the database.
  pub handle_message_twice :
      (xack xack₂ : Result (Unit {0})) (now now₂ : ℕ) (message_id : String) (fields : List String)
      (w w₁ : Work)
      → handle_message P build now xack message_id fields w ≡ (ok tt, w₁)
      → w₁.acked ≢ w.acked
      → (handle_message P build now₂ xack₂ message_id fields w₁).1.database ≡ w₁.database
  handle_message_twice xack xack₂ now now₂ message_id fields w w₁ e new =
      let (id, c, named, finished) =
        handle_message_acked P build now real xack message_id fields w w₁.acked
          (ap (λ r. r.1.acked) e) new in
      handle_message_finished P build now₂ real xack₂ message_id fields w₁ id c named
        (rw e at finished)
