-- ===== src/Stream/Memory.antt =====
-- Streams that always answer, which meet the hypotheses on them.
use mathlib.Core.List.{Memᴰ}
use mini_serverless_cloud_pl.Base.{
  Bool-cases, All, keep, strip_prefix, includes, failure, Result, ok, err, ◌≡◌, refl, inl, inr,
  Bool, true, Option, none, some, List, [], ◌∷◌,
}
use mini_serverless_cloud_pl.Stream.{
  Message, is_pending, moved, new_group, Group, Streams, Creates, Reads, IsStreams,
}

abbrev create_group : Option Group → Result Group
create_group none = ok new_group
create_group (some g) = err (failure "BUSYGROUP Consumer Group name already exists")

abbrev pub next_message : List Message → Group → Result (Option (List Message)) × Group
next_message [] g = (ok none, g)
next_message (m ∷ rest) g = (ok (some (m ∷ [])), moved m rest g)

-- Every pending message counts as idle for long enough.
abbrev pub memory : Streams
memory = record {
  xgroup_create = create_group;
  xreadgroup = λ moment g. next_message g.waiting g;
  xautoclaim = λ moment acked g. ok (keep (is_pending acked) g.delivered);
  xack = λ moment message_id. ok tt;
}

next_message-Reads : (g : Group) (ms : List Message) → g.waiting ≡ ms → Reads g (next_message ms g)
next_message-Reads g [] e = Reads.timed_out
next_message-Reads g (m ∷ rest) e = Reads.given m rest e

keep-All :
    {A : Type 0} (p : A → Bool) (xs ys : List A)
    → ((x : A) → Memᴰ x xs → Memᴰ x ys)
    → All (λ x. Memᴰ x ys × (p x ≡ true)) (keep p xs)
keep-All p [] ys sub = tt
keep-All p (x ∷ xs) ys sub = elim (Bool-cases (p x)) [
  | inl hit ↦ rw hit ((sub x (Memᴰ.head refl), hit), keep-All p xs ys (λ y m. sub y (Memᴰ.tail m)))
  | inr miss ↦ rw miss (keep-All p xs ys (λ y m. sub y (Memᴰ.tail m)))
]

create_group-Creates : (o : Option Group) → Creates o (create_group o)
unfolding includes strip_prefix
create_group-Creates none = Creates.created
create_group-Creates (some g) = Creates.busy g _ refl

pub memory-IsStreams : IsStreams memory
memory-IsStreams = record {
  creates = create_group-Creates;
  reads = λ moment g. next_message-Reads g g.waiting refl;
  claims = λ moment acked g. keep-All (is_pending acked) g.delivered g.delivered (λ x m. m);
}
