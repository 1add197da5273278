-- ===== src/Storage/Bucket.antt =====
-- What the bucket holds after a start and after an upload.
use mini_serverless_cloud_pl.Base.{
  Bool-cases, str_eq_of_ne, template, resume, return, failure, Result, ok, err, String, ◌≡◌, refl,
  sym, ap, ◌∙◌, ◌≢◌, inl, inr, true, false, Option, none, some, List, [], ◌∷◌, str_eq, eq_iff,
}
use mini_serverless_cloud_pl.Redis.{Hash, put}
use mini_serverless_cloud_pl.Build.Reads.{object_at, object_at-put}
use mini_serverless_cloud_pl.Storage.{
  already_exists, put_object, get_object, Config, Creation, made, refused, S3, stored,
}

-- A bucket that exists is refused with one of two names; nothing else has them.
abbrev pub Makes : Option Hash → Creation → Type 0
Makes none made = Unit
Makes none (refused name m) = already_exists name ≡ false
Makes (some objects) made = ⊥
Makes (some objects) (refused name m) = Unit

-- The object under a key comes in chunks, in its order; without a bucket or an object there is an error.
abbrev pub Streams : Option String → Result (List String) → Type 0
Streams none (ok chunks) = ⊥
Streams (some body) (ok chunks) = template chunks ≡ body
Streams body (err x) = Unit

abbrev pub body_of : Option (String × String) → Option String
body_of none = none
body_of (some e) = some e.1

abbrev pub body_at : String → Option Hash → Option String
body_at key none = none
body_at key (some objects) = body_of (object_at key objects)

abbrev pub Puts : String → String → Option Hash → Result (Option Hash) → Type 0
Puts key body none (ok objects') = ⊥
Puts key body (some objects) (ok objects') = objects' ≡ some (put key body objects)
Puts key body objects (err x) = Unit

stored_body : (key body : String) (h : Hash) → body_at key (some (put key body h)) ≡ some body
stored_body key body h = ap body_of (object_at-put key body h)

other_object :
    (key other body : String) (h : Hash)
    → other ≢ key
    → object_at other (put key body h) ≡ object_at other h
other_object key other body [] n = rw (str_eq_of_ne (λ e. n (sym e))) refl
other_object key other body ((k, v) ∷ h) n = elim (Bool-cases (str_eq k key)) [
  | inl hit ↦
      let same = (eq_iff k key).0 hit in
      rw hit
        (rw (str_eq_of_ne (λ e. n (sym e))) (rw same (rw (str_eq_of_ne (λ e. n (sym e))) refl)))
  | inr miss ↦ elim (Bool-cases (str_eq k other)) [
    | inl here ↦ rw miss (rw here refl)
    | inr there ↦ rw miss (rw there (other_object key other body h n))
  ]
]

other_body :
    (key other body : String) (h : Hash)
    → other ≢ key
    → body_at other (some (put key body h)) ≡ body_at other (some h)
other_body key other body h n = ap body_of (other_object key other body h n)

pub record IsS3 (S : S3) : Type 0 where
  pub makes :
      (bucket : String) (objects : Option Hash) → Makes objects (S.create_bucket bucket objects)
  pub puts :
      (key body : String) (objects : Option Hash) → Puts key body objects (S.put key body objects)
  pub gets :
      (key : String) (objects : Option Hash) → Streams (body_at key objects) (S.get key objects)

module _ (S : S3) (real : IsS3 S) (config : Config) where
  -- What `onModuleInit` does with the bucket.
  pub data Boots (objects : Option Hash) : Result (Unit {0}) × Option Hash → Type 0 where
    on_aws : config.is_minio ≡ false → Boots objects (ok tt, objects)
    new_bucket : config.is_minio ≡ true → objects ≡ none → Boots objects (ok tt, some [])
    same_bucket :
        (kept : Hash)
        → config.is_minio ≡ true
        → objects ≡ some kept
        → Boots objects (ok tt, some kept)
    no_bucket : (m : String) → config.is_minio ≡ true → Boots objects (err (failure m), objects)

  put_lem :
      (key body : String) (o : Option Hash) {objects' : Option Hash} (r : Result (Option Hash))
      → Puts key body o r
      → stored S config r o ≡ (ok tt, objects')
      → (kept : Hash) × (o ≡ some kept) × (objects' ≡ some (put key body kept))
  unfolding stored
  put_lem key body none (ok after) p e = absurd p
  put_lem key body (some kept) (ok after) p e = (kept, refl, sym (ap (λ r. r.1) e) ∙ p)
  put_lem key body none (err x) p e = absurd (cc)
  put_lem key body (some kept) (err x) p e = absurd (cc)

  get_lem :
      (objects : Option Hash) (b : Option String) {body downloaded : String}
      (r : Result (List String))
      → Streams b r
      → ◌≡◌ {A = Result String × Option Hash}
          (resume (λ chunks. return (template chunks)) (r, objects))
          (ok downloaded, objects)
      → b ≡ some body
      → downloaded ≡ body
  get_lem objects none (ok chunks) l e at = absurd l
  get_lem objects (some b) (ok chunks) l e at = cc
  get_lem objects none (err x) l e at = absurd (cc)
  get_lem objects (some b) (err x) l e at = absurd (cc)

  -- What was uploaded is what is downloaded, byte for byte, in however many chunks it comes; and the
  -- objects under the other keys are not touched. (Unless the download fails.)
  pub put_object-get_object :
      (key other body : String) (objects objects' : Option Hash) (downloaded : String)
      → put_object S config key body objects ≡ (ok tt, objects')
      → get_object S config key objects' ≡ (ok downloaded, objects')
      → (downloaded ≡ body) × (other ≢ key → body_at other objects' ≡ body_at other objects)
  unfolding put_object stored get_object
  put_object-get_object key other body objects objects' downloaded sent got =
      let (kept, there, after) =
        put_lem key body objects (S.put key body objects) (real.puts key body objects) sent in
      (
        get_lem objects' (body_at key objects') (S.get key objects') (real.gets key objects') got
            (ap (body_at key) after ∙ stored_body key body kept),
        (λ n.
            ap (body_at other) after
            ∙ other_body key other body kept n
            ∙ ap (body_at other) (sym there)),
      )
