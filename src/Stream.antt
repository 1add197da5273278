-- ===== src/Stream.antt =====
-- Redis streams, which the code only calls: one stream with its consumer group, and the commands that
-- the consumers of builds and of invocations send. Every command may fail.
pub mod Memory
use mathlib.Core.List.{Memᴰ}
use mini_serverless_cloud_pl.Base.{
  All, any, includes, Exception, failure, Result, ok, err, ℕ, String, ◌≡◌, Bool, true, false, not,
  Option, none, some, List, [], ◌∷◌, ◌++◌, str_eq,
}

-- A message: its id and its fields.
abbrev pub Message : Type 0
Message = String × List String

-- The messages behind the one that the group was last given, and those that it was given, both from
-- the oldest on. The given ones that nobody has acknowledged are pending.
pub record Group : Type 0 where
  pub waiting : List Message
  pub delivered : List Message

abbrev pub is_pending : List String → Message → Bool
is_pending acked m = not (any (str_eq m.0) acked)

-- `XGROUP CREATE` of a group that may exist, and the commands of a consumer; the number is the moment
-- at which a command arrives, and `XAUTOCLAIM` reads the ids that have been acknowledged.
pub record Streams : Type 0 where
  pub xgroup_create : Option Group → Result Group
  pub xreadgroup : ℕ → Group → Result (Option (List Message)) × Group
  pub xautoclaim : ℕ → List String → Group → Result (List Message)
  pub xack : ℕ → String → Result (Unit {0})

abbrev pub moved : Message → List Message → Group → Group
moved m rest g = record { waiting = rest; delivered = g.delivered ++ m ∷ [] }

-- `XGROUP CREATE key group $ MKSTREAM`: a new group starts behind the messages of the stream; a group
-- that exists is an error with `BUSYGROUP` in its message.
abbrev pub new_group : Group
new_group = record { waiting = []; delivered = [] }

pub data Creates : Option Group → Result Group → Type 0 where
  created : Creates none (ok new_group)
  busy :
      (g : Group) (text : String)
      → includes text "BUSYGROUP" ≡ true
      → Creates (some g) (err (failure text))
  refused :
      (o : Option Group) (text : String)
      → includes text "BUSYGROUP" ≡ false
      → Creates o (err (failure text))

-- `XREADGROUP COUNT 1 ... >`: nothing when the time to block runs out, or the next message. Where the
-- connection fails the command may have been executed or not.
pub data Reads (g : Group) : Result (Option (List Message)) × Group → Type 0 where
  timed_out : Reads g (ok none, g)
  given :
      (m : Message) (rest : List Message)
      → g.waiting ≡ m ∷ rest
      → Reads g (ok (some (m ∷ [])), moved m rest g)
  unsent : (x : Exception) → Reads g (err x, g)
  unanswered :
      (x : Exception) (m : Message) (rest : List Message)
      → g.waiting ≡ m ∷ rest
      → Reads g (err x, moved m rest g)

-- `XAUTOCLAIM` gives pending messages, those that have been idle for long enough.
abbrev pub Claims : List String → Group → Result (List Message) → Type 0
Claims acked g (ok ms) = All (λ m. Memᴰ m g.delivered × (is_pending acked m ≡ true)) ms
Claims acked g (err x) = Unit

pub record IsStreams (S : Streams) : Type 0 where
  pub creates : (o : Option Group) → Creates o (S.xgroup_create o)
  pub reads : (moment : ℕ) (g : Group) → Reads g (S.xreadgroup moment g)
  pub claims :
      (moment : ℕ) (acked : List String) (g : Group) → Claims acked g (S.xautoclaim moment acked g)
