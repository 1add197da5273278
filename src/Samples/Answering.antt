-- ===== src/Samples/Answering.antt =====
-- A relay, streams and a database that answer, for test data.
use mini_serverless_cloud_pl.BuildConsumer.Steady.{IsSteady}
use mini_serverless_cloud_pl.Base.{
  leb, keep, rewrite_where, order_by, take, order_by-Perm, order_by-IsOrdered, IsPage, take-IsPage,
  ok, ◌≡◌, refl, ap, subst, Bool, List, arith,
}
use mini_serverless_cloud_pl.Schema.{Build}
use mini_serverless_cloud_pl.Prisma.Memory.{update, memory}
use mini_serverless_cloud_pl.Stream.Memory.{next_message, memory as streams}
use mini_serverless_cloud_pl.BuildRelay.Tick.{is_candidate, IsOlderBuild, IsScan, Answers}
use mini_serverless_cloud_pl.BuildRelay.Tick.Drains.{IsAnswering}
use mini_serverless_cloud_pl.BuildRelay.{Hold}
use mini_serverless_cloud_pl.Build.{has_id}
use mini_serverless_cloud_pl.BuildConsumer.Loop.Progress.{IsResponsive}

abbrev older : Build → Build → Bool
older b c = leb b.created_at c.created_at

abbrev found_rows : List Hold → List Build → List Build
found_rows locked rows = take 20 (order_by older (keep (is_candidate locked) rows))

abbrev pub answers : Answers
answers = record {
  scan = λ locked rows. ok (found_rows locked rows);
  now = 8;
  committed = ok tt;
  xadd = λ id. ok tt;
}

pub answers-IsScan : IsScan answers.scan
answers-IsScan locked rows found e =
    let same : found_rows locked rows ≡ found = cc in
    subst (λ page. IsPage (is_candidate locked) IsOlderBuild 20 rows page) same
      (take-IsPage 20 (order_by older (keep (is_candidate locked) rows))
        (order_by-Perm older (keep (is_candidate locked) rows))
        (order_by-IsOrdered older IsOlderBuild (λ b c h. ground arith) (λ b c h. ground arith)
          (λ b c d h k. omega arith) (keep (is_candidate locked) rows)))

pub answers-IsAnswering : IsAnswering answers
answers-IsAnswering = record {
  found = found_rows;
  scans = λ locked rows. refl;
  pages = answers-IsScan;
  commits = refl;
  sends = λ id. refl;
}

pub streams-IsResponsive : IsResponsive streams
streams-IsResponsive = record {
  gives = λ moment g m rest e. ap (λ ws. next_message ws g) e;
  reclaims = λ moment acked g. (_, refl);
}

pub memory-IsSteady : IsSteady memory
unfolding memory update
memory-IsSteady = record {
  finds = λ id db. (_, refl);
  updates = λ id change db there.
      (record db { builds = rewrite_where (has_id id) change db.builds }, rw (update, there) refl);
}
