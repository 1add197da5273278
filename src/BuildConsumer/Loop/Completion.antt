-- ===== src/BuildConsumer/Loop/Completion.antt =====
-- Every build whose message waits is finished in the end, where the database and Redis answer.
use mathlib.Core.List.{Memᴰ}
use mini_serverless_cloud_pl.Base.{
  length, show, number-show, resume, Result, ok, err, ℕ, zero, suc, ◌+◌, ◌≤◌, String, ◌≡◌, refl,
  sym, ap, ◌∙◌, subst, Option, none, some, List, [], ◌∷◌, arith,
}
use mini_serverless_cloud_pl.Prisma.{Prisma, IsPrisma}
use mini_serverless_cloud_pl.Build.{BuildExecutor}
use mini_serverless_cloud_pl.Stream.{Message, moved, Group, Streams, IsStreams}
use mini_serverless_cloud_pl.BuildConsumer.{following, field_of, build_id_of, handle_message, Work}
use mini_serverless_cloud_pl.BuildConsumer.Loop.{
  handle_next, handle_each, reclaim_abandoned_messages, read_and_process_once, pass, passes,
  Consumer, after_message, after_read, handle_response,
}
use mini_serverless_cloud_pl.BuildConsumer.Loop.Queue.{pass-keeps, handle_each-cons}
use mini_serverless_cloud_pl.BuildConsumer.Loop.Progress.{pass-read, pass-waiting, IsResponsive}
use mini_serverless_cloud_pl.BuildConsumer.Steady.{
  HasBuild, IsCompleted, handle_message-HasBuild, handle_message-IsCompleted,
  handle_message-completes, IsSteady,
}

-- The entry that the relay adds to the stream for a build, under an id of its own.
abbrev pub entry : (ℕ → String) → ℕ → Message
entry name id = (name id, "buildId" ∷ show id ∷ [])

pub entry-build_id : (name : ℕ → String) (id : ℕ) → build_id_of (entry name id).1 ≡ some id
unfolding build_id_of field_of following
entry-build_id name id = number-show id

module _ (P : Prisma) (build : BuildExecutor) (prisma : IsPrisma P) (S : Streams)
    (clock : ℕ → ℕ) where
  -- What every handling of a message keeps of the database and the acknowledgements.
  module _ (J : Work → Type 0)
      (keeps : (now : ℕ) (xack : Result (Unit {0})) (m : Message) (w : Work)
        → J w
        → J (handle_message P build now xack m.0 m.1 w).1) where
    handle_each-keeps :
        (ms : List Message) (c : Consumer) → J c.work → J (handle_each P build S clock ms c).1.work
    unfolding handle_each handle_next after_message
    handle_each-keeps [] c h = h
    handle_each-keeps (m ∷ ms) c h = rw (handle_each-cons P build S clock prisma m ms c) (
        handle_each-keeps ms (handle_next P build S clock m c).1
          (keeps (clock c.moment) (S.xack c.moment m.0) m c.work h))

    reclaim-keeps :
        (c : Consumer) → J c.work → J (reclaim_abandoned_messages P build S clock c).1.work
    unfolding reclaim_abandoned_messages
    reclaim-keeps c h = go (S.xautoclaim c.moment c.work.acked c.group)
      where
        go :
            (answer : Result (List Message))
            → J
                (resume
                  (handle_each P build S clock)
                  (answer, record c { moment = c.moment + 1 })).1.work
        go (ok ms) = handle_each-keeps ms (record c { moment = c.moment + 1 }) h
        go (err x) = h

    read-keeps : (c : Consumer) → J c.work → J (read_and_process_once P build S clock c).1.work
    unfolding read_and_process_once after_read handle_response
    read-keeps c h = go (S.xreadgroup c.moment c.group)
      where
        go :
            (answer : Result (Option (List Message)) × Group)
            → J
                (resume
                  (handle_response P build S clock)
                  (after_read P build S clock answer c)).1.work
        go (ok none, g) = h
        go (ok (some ms), g) = handle_each-keeps ms _ h
        go (err x, g) = h

    passes-keeps : (n : ℕ) (c : Consumer) → J c.work → J (passes P build S clock n c).work
    unfolding passes
    passes-keeps zero c h = h
    passes-keeps (suc n) c h =
        passes-keeps n (pass P build S clock c)
          (pass-keeps P build S clock (λ d. J d.work) reclaim-keeps read-keeps c h)

  HasBuild-pass :
      (id : ℕ) (c : Consumer)
      → HasBuild id c.work.database
      → HasBuild id (pass P build S clock c).work.database
  HasBuild-pass id c h =
      pass-keeps P build S clock (λ d. HasBuild id d.work.database)
        (reclaim-keeps (λ w. HasBuild id w.database)
          (λ now xack m w. handle_message-HasBuild P build prisma now xack m id w))
        (read-keeps (λ w. HasBuild id w.database)
          (λ now xack m w. handle_message-HasBuild P build prisma now xack m id w))
        c h

  module _ (responsive : IsResponsive S) (streams : IsStreams S) (steady : IsSteady P)
      (acknowledged : (moment : ℕ) (message_id : String) → S.xack moment message_id ≡ ok tt) where
    read-completes :
        (id : ℕ) (m : Message) (rest : List Message) (c : Consumer)
        → c.group.waiting ≡ m ∷ rest
        → build_id_of m.1 ≡ some id
        → HasBuild id c.work.database
        → IsCompleted m.0 id (read_and_process_once P build S clock c).1.work
    unfolding read_and_process_once after_read handle_response handle_next after_message
    read-completes id m rest c e name there =
        let d : Consumer = record c { group = moved m rest c.group; moment = c.moment + 1 } in
        rw (responsive.gives c.moment c.group m rest e) (
          rw (handle_each-cons P build S clock prisma m [] d)
            (given d (acknowledged d.moment m.0) there))
      where
        given :
            (d : Consumer)
            → S.xack d.moment m.0 ≡ ok tt
            → HasBuild id d.work.database
            → IsCompleted m.0 id
                (handle_each P build S clock [] (handle_next P build S clock m d).1).1.work
        given d answered exists =
            subst
              (λ x. IsCompleted m.0 id (handle_message P build (clock d.moment) x m.0 m.1 d.work).1)
              (sym answered)
              (handle_message-completes P build prisma (clock d.moment) m id d.work steady name
                exists)

    -- The message that waits first is completed in the next pass.
    pass-completes :
        (id : ℕ) (m : Message) (rest : List Message) (c : Consumer)
        → c.group.waiting ≡ m ∷ rest
        → build_id_of m.1 ≡ some id
        → HasBuild id c.work.database
        → IsCompleted m.0 id (pass P build S clock c).work
    pass-completes id m rest c e name there =
        let d = (reclaim_abandoned_messages P build S clock c).1 in
        let (same, read) = pass-read P build S clock prisma responsive streams c in
        subst (λ k. IsCompleted m.0 id k.work) (sym read)
          (read-completes id m rest d (ap Group.waiting same ∙ e) name (
            reclaim-keeps (λ w. HasBuild id w.database)
              (λ now xack k w. handle_message-HasBuild P build prisma now xack k id w) c there))

    -- Where the database and Redis answer, every message that waits and names a build that is there
    -- is acknowledged after as many passes as messages wait, and then its build is `SUCCESS` or
    -- `FAILED`, whatever the executor does.
    pub passes-completes :
        (n : ℕ) (c : Consumer) (m : Message) (id : ℕ)
        → Memᴰ m c.group.waiting
        → build_id_of m.1 ≡ some id
        → HasBuild id c.work.database
        → length c.group.waiting ≤ n
        → IsCompleted m.0 id (passes P build S clock n c).work
    unfolding passes
    passes-completes n c m id there name exists enough =
        go n c c.group.waiting refl there exists enough
      where
        go :
            (n : ℕ) (c : Consumer) (ws : List Message)
            → c.group.waiting ≡ ws
            → Memᴰ m ws
            → HasBuild id c.work.database
            → length ws ≤ n
            → IsCompleted m.0 id (passes P build S clock n c).work
        go n c [] e at exists h = elim at [ ]
        go zero c (w ∷ rest) e at exists h = absurd (omega arith)
        go (suc n) c (w ∷ rest) e (Memᴰ.head first) exists h =
            passes-keeps (IsCompleted m.0 id)
              (λ now xack k v. handle_message-IsCompleted P build prisma now xack k m.0 id v) n
              (pass P build S clock c)
              (pass-completes id m rest c (e ∙ ap (λ k. k ∷ rest) (sym first)) name exists)
        go (suc n) c (w ∷ rest) e (Memᴰ.tail later) exists h =
            go n (pass P build S clock c) rest
              (pass-waiting P build S clock prisma responsive streams w rest c e) later
              (HasBuild-pass id c exists) (omega arith)
