-- ===== src/Redis.antt =====
-- The Redis server, which the code only calls: the hash commands, and JSON values stored in it.
pub mod Memory
use mini_serverless_cloud_pl.Base.{
  String, List, [], ◌∷◌, Option, some, ◌≡◌, Result, ok, err, str_eq, if◌then◌else◌,
}

-- A hash: field and value.
abbrev pub Hash : Type 0
Hash = List (String × String)

abbrev pub put : String → String → Hash → Hash
put field value [] = (field, value) ∷ []
put field value ((f, v) ∷ h) =
    if str_eq f field then (field, value) ∷ h else (f, v) ∷ put field value h

abbrev pub drop_field : String → Hash → Hash
drop_field field [] = []
drop_field field ((f, v) ∷ h) = if str_eq f field then h else (f, v) ∷ drop_field field h

pub record Redis : Type 0 where
  pub hset : String → String → Hash → Result Hash
  pub hdel : String → Hash → Result Hash
  pub hgetall : Hash → Result Hash

-- A command that does not fail has its documented effect.
abbrev pub Answers : {A : Type 0} → A → Result A → Type 0
Answers a (ok b) = b ≡ a
Answers a (err e) = Unit

pub record IsRedis (R : Redis) : Type 0 where
  pub hsets : (field value : String) (h : Hash) → Answers (put field value h) (R.hset field value h)
  pub hdels : (field : String) (h : Hash) → Answers (drop_field field h) (R.hdel field h)
  pub hgets : (h : Hash) → Answers h (R.hgetall h)

-- `JSON.stringify` and `JSON.parse` at one type of values; `parse` throws on other texts.
pub record Codec (A : Type 0) : Type 0 where
  pub stringify : A → String
  pub parse : String → Option A

abbrev pub IsCodec : {A : Type 0} → Codec A → Type 0
IsCodec {A} c = (a : A) → c.parse (c.stringify a) ≡ some a
