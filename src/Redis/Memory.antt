-- ===== src/Redis/Memory.antt =====
-- A Redis server that always answers, which meets the hypotheses on it.
use mini_serverless_cloud_pl.Base.{ok, refl}
use mini_serverless_cloud_pl.Redis.{Redis, IsRedis, put, drop_field}

abbrev pub memory : Redis
memory = record {
  hset = λ field value h. ok (put field value h);
  hdel = λ field h. ok (drop_field field h);
  hgetall = λ h. ok h;
}

pub memory-IsRedis : IsRedis memory
memory-IsRedis = record {
  hsets = λ field value h. refl;
  hdels = λ field h. refl;
  hgets = λ h. refl;
}
