-- ===== src/Consume/Commands.antt =====
-- The commands of Redis that a consumer group of consume.go sends, and their replies.
use dasher.Common.{ℕ, String, Option, List}
use dasher.Common.Int.{ℤ}
use dasher.Consume.Process.{Message}
use dasher.Errors.{Error}
use dasher.Handler.{Action}

-- A row of `XPENDING … start end count`.
pub record Pending : Type 0 where
  pub id : String
  pub consumer : String
  pub idle : ℤ

-- The arguments of `XPENDING` that vary; no name stands for every consumer, and an idle time of
-- zero for no filter.
pub record PendingArgs : Type 0 where
  pub start : String
  pub count : ℕ
  pub consumer : Option String
  pub idle : ℤ

-- A row of `XINFO CONSUMERS`.
pub record ConsumerInfo : Type 0 where
  pub name : String
  pub pending : ℕ
  pub idle : ℤ

pub data Reply (A : Type 0) : Type 0 where
  reply : A → Reply A
  refused : Error → Reply A

-- `XREADGROUP`: new entries, no entries before the block time is over (`redis.Nil`), or an error.
pub data Read : Type 0 where
  entries : List Message → Read
  timed_out : Read
  broken : Error → Read

-- The commands for one stream and group. `text_of` is `err.Error()`.
pub record Redis (W : Type 0) : Type 0 where
  pub xgroup_create : Action W (Option Error)
  pub xpending : PendingArgs → Action W (Reply (List Pending))
  pub xclaim : String → ℤ → List String → Action W (Reply (List Message))
  pub xreadgroup : String → ℕ → ℤ → Action W Read
  pub xinfo_consumers : Action W (Reply (List ConsumerInfo))
  pub xgroup_del_consumer : String → Action W (Option Error)
  pub text_of : Error → String
