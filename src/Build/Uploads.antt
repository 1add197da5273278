-- ===== src/Build/Uploads.antt =====
-- The upload route: whose function gets the build that is answered.
use mini_serverless_cloud_pl.Schema.{Build}
use mini_serverless_cloud_pl.Prisma.{Prisma}
