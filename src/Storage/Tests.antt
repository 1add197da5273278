-- ===== src/Storage/Tests.antt =====
-- The bucket of a MinIO in memory, which streams an object in two chunks.
use text.Mathlib.TextLemmas.{nil-append, append-nil}
use mini_serverless_cloud_pl.Base.{
  failure, Result, ok, err, String, ◌≡◌, refl, ◌∙◌, ◌≢◌, true, Option, none, some, List, [], ◌∷◌,
}
use mini_serverless_cloud_pl.Redis.{Hash, put}
use mini_serverless_cloud_pl.Storage.{
  put_object, get_object, Config, Creation, made, refused, S3, stored,
}
use mini_serverless_cloud_pl.Storage.Bucket.{
  Makes, Streams, body_at, Puts, put_object-get_object, IsS3,
}

abbrev create : Option Hash → Creation
create none = made
create (some objects) = refused (some "BucketAlreadyOwnedByYou") "it is yours"

abbrev put_into : String → String → Option Hash → Result (Option Hash)
put_into key body none = err (failure "NoSuchBucket")
put_into key body (some objects) = ok (some (put key body objects))

abbrev chunks_of : Option String → Result (List String)
chunks_of none = err (failure "NoSuchKey")
chunks_of (some body) = ok ("" ∷ body ∷ [])

abbrev minio : S3
minio = record {
  create_bucket = λ bucket objects. create objects;
  put = put_into;
  get = λ key objects. chunks_of (body_at key objects);
}

create-Makes : (o : Option Hash) → Makes o (create o)
create-Makes none = tt
create-Makes (some objects) = tt

put_into-Puts : (key body : String) (o : Option Hash) → Puts key body o (put_into key body o)
put_into-Puts key body none = tt
put_into-Puts key body (some objects) = refl

chunks_of-Streams : (b : Option String) → Streams b (chunks_of b)
chunks_of-Streams none = tt
chunks_of-Streams (some body) = nil-append _ ∙ append-nil body

minio-IsS3 : IsS3 minio
minio-IsS3 = record {
  makes = λ bucket. create-Makes;
  puts = put_into-Puts;
  gets = λ key objects. chunks_of-Streams (body_at key objects);
}

abbrev config : Config
config = record {
  bucket = "sources";
  is_minio = true;
  endpoint = some "http://localhost:9000";
  region = "us-east-1";
  credentials = none;
  force_path_style = true;
}

abbrev before : Option Hash
before = some (("b.js", "old") ∷ [])

abbrev after : Option Hash
after = some (("b.js", "old") ∷ ("a.js", "new") ∷ [])

put_object-get_object_example :
    (◌≡◌ {A = String} "new" "new")
    × (◌≢◌ {A = String} "b.js" "a.js" → body_at "b.js" after ≡ body_at "b.js" before)
unfolding put_object stored get_object
put_object-get_object_example =
    put_object-get_object minio minio-IsS3 config "a.js" "b.js" "new" before after "new" refl refl
