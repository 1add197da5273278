-- ===== src/BuildConsumer/Loop/Progress.antt =====
-- The loop gets through its queue: no message and no build holds up those behind it.
use mini_serverless_cloud_pl.Base.{
  length, resume, return, handle, Result, ok, err, ℕ, zero, suc, ◌+◌, ◌≤◌, String, ◌≡◌, refl, ap,
  ◌∙◌, Option, some, List, [], ◌∷◌, arith,
}
use mini_serverless_cloud_pl.Prisma.{Prisma, IsPrisma}
use mini_serverless_cloud_pl.Build.{BuildExecutor}
use mini_serverless_cloud_pl.Stream.{Message, moved, Group, Streams, Reads, IsStreams}
use mini_serverless_cloud_pl.BuildConsumer.Loop.{
  handle_next, handle_each, reclaim_abandoned_messages, read_and_process_once, pass, passes,
  Consumer, after_message, after_read, handle_response,
}
use mini_serverless_cloud_pl.BuildConsumer.Loop.Queue.{handle_each-cons}

-- A server that answers: a message that waits is given to the next `XREADGROUP`.
pub record IsResponsive (S : Streams) : Type 0 where
  pub gives :
      (moment : ℕ) (g : Group) (m : Message) (rest : List Message)
      → g.waiting ≡ m ∷ rest
      → S.xreadgroup moment g ≡ (ok (some (m ∷ [])), moved m rest g)
  pub reclaims :
      (moment : ℕ) (acked : List String) (g : Group)
      → (ms : List Message) × (S.xautoclaim moment acked g ≡ ok ms)

module _ (P : Prisma) (build : BuildExecutor) (S : Streams) (clock : ℕ → ℕ)
    (prisma : IsPrisma P) where
  -- Handling messages leaves the group as it is.
  handle_each-answer :
      (ms : List Message) (c : Consumer)
      → ((handle_each P build S clock ms c).0 ≡ ok tt)
        × ((handle_each P build S clock ms c).1.group ≡ c.group)
  unfolding handle_each handle_next after_message
  handle_each-answer [] c = (refl, refl)
  handle_each-answer (m ∷ ms) c =
      let (fine, same) = handle_each-answer ms (handle_next P build S clock m c).1 in
      rw (handle_each-cons P build S clock prisma m ms c) (fine, same)

  module _ (responsive : IsResponsive S) (streams : IsStreams S) where
    reclaim-answer :
        (c : Consumer)
        → ((reclaim_abandoned_messages P build S clock c).0 ≡ ok tt)
          × ((reclaim_abandoned_messages P build S clock c).1.group ≡ c.group)
    unfolding reclaim_abandoned_messages
    reclaim-answer c =
        let (ms, e) = responsive.reclaims c.moment c.work.acked c.group in
        rw e (handle_each-answer ms (record c { moment = c.moment + 1 }))

    read-waiting :
        (m : Message) (rest : List Message) (c : Consumer)
        → c.group.waiting ≡ m ∷ rest
        → (read_and_process_once P build S clock c).1.group ≡ moved m rest c.group
    unfolding read_and_process_once after_read handle_response
    read-waiting m rest c e =
        rw (responsive.gives c.moment c.group m rest e)
          (handle_each-answer (m ∷ [])
            (record c { group = moved m rest c.group; moment = c.moment + 1 })).1

    read-empty :
        (c : Consumer)
        → c.group.waiting ≡ []
        → (read_and_process_once P build S clock c).1.group.waiting ≡ []
    unfolding read_and_process_once after_read handle_response
    read-empty c e = go (S.xreadgroup c.moment c.group) (streams.reads c.moment c.group)
      where
        go :
            (answer : Result (Option (List Message)) × Group)
            → Reads c.group answer
            → (resume
                (handle_response P build S clock)
                (after_read P build S clock answer c)).1.group.waiting
              ≡ []
        go _ Reads.timed_out = e
        go _ (Reads.given m rest e₁) = absurd (cc)
        go _ (Reads.unsent x) = e
        go _ (Reads.unanswered x m rest e₁) = absurd (cc)

    -- A pass reads, since nothing makes the reclaiming throw.
    pub pass-read :
        (c : Consumer)
        → let d = (reclaim_abandoned_messages P build S clock c).1 in
          (d.group ≡ c.group)
          × (pass P build S clock c ≡ (read_and_process_once P build S clock d).1)
    unfolding pass
    pass-read c =
        let (fine, same) = reclaim-answer c in
        (same, go (reclaim_abandoned_messages P build S clock c) fine)
      where
        settle : (r : Result (Unit {0}) × Consumer) → (handle (λ _. return tt) r).1 ≡ r.1
        settle (ok u, d) = refl
        settle (err x, d) = refl

        go :
            (r : Result (Unit {0}) × Consumer)
            → r.0 ≡ ok tt
            → (handle (λ _. return tt) (resume (λ _. read_and_process_once P build S clock) r)).1
              ≡ (read_and_process_once P build S clock r.1).1
        go (ok u, d) e = settle (read_and_process_once P build S clock d)
        go (err x, d) e = absurd (cc)

    pub pass-waiting :
        (m : Message) (rest : List Message) (c : Consumer)
        → c.group.waiting ≡ m ∷ rest
        → (pass P build S clock c).group.waiting ≡ rest
    pass-waiting m rest c e =
        let d = (reclaim_abandoned_messages P build S clock c).1 in
        let (same, read) = pass-read c in
        ap (λ k. k.group.waiting) read
        ∙ ap Group.waiting (read-waiting m rest d (ap Group.waiting same ∙ e))

    -- Where Redis answers, the loop has been given every waiting message after as many passes as there
    -- are, even if every build crashes and the database fails.
    pub passes-drains :
        (n : ℕ) (c : Consumer)
        → length c.group.waiting ≤ n
        → (passes P build S clock n c).group.waiting ≡ []
    unfolding passes
    passes-drains n c enough = go n c c.group.waiting refl enough
      where
        go :
            (n : ℕ) (c : Consumer) (ws : List Message)
            → c.group.waiting ≡ ws
            → length ws ≤ n
            → (passes P build S clock n c).group.waiting ≡ []
        go zero c [] e h = e
        go zero c (m ∷ rest) e h = absurd (omega arith)
        go (suc n) c [] e h =
            let d = (reclaim_abandoned_messages P build S clock c).1 in
            let (same, read) = pass-read c in
            go n (pass P build S clock c) []
              (ap (λ e. e.group.waiting) read ∙ read-empty d (ap Group.waiting same ∙ e))
              (omega arith)
        go (suc n) c (m ∷ rest) e h =
            go n (pass P build S clock c) rest (pass-waiting m rest c e) (omega arith)
