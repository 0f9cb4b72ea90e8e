-- ===== src/Executor.antt =====
-- internal/executor/executor.go: the data that crosses the Executor interface. A float64 is a
-- value of an abstract type F; a Go string is a list of bytes; a map of environment variables is
-- an association list in some iteration order.
pub mod CapWriter
pub mod Shell
pub mod Gvisor
pub mod WarmPool
use isobox.Prelude.{Bool, Bytes, List, ℕ}

pub record Language : Type 0 where
  pub name : Bytes
  pub version : Bytes

pub record File : Type 0 where
  pub name : Bytes
  pub content : Bytes
  pub encoding : Bytes

pub record Mount : Type 0 where
  pub host_path : Bytes
  pub target : Bytes
  pub rw : Bool

-- `Limits`; a number that is not positive is 0 here, since the code never tells those apart.
pub record Limits (F : Type 0) : Type 0 where
  pub memory_bytes : ℕ
  pub cpus : F
  pub pids : ℕ
  pub output_bytes : ℕ
  pub wall_time_ms : ℕ
  pub compile_time_ms : ℕ

pub record Spec (F : Type 0) : Type 0 where
  pub lang : Language
  pub image : Bytes
  pub compile : List Bytes
  pub run : List Bytes
  pub workdir : Bytes
  pub env : List (Bytes × Bytes)
  pub scratch_exec : Bool
  pub scratch_mb : ℕ
  pub mounts : List Mount
  pub files : List File
  pub stdin : Bytes
  pub argv : List Bytes
  pub limits : Limits F
  pub network : Bool

-- `Result`
pub record Outcome : Type 0 where
  pub stdout : Bytes
  pub stderr : Bytes
  pub exit_code : ℕ
  pub timed_out : Bool
  pub oom_killed : Bool
  pub truncated : Bool
  pub duration_ms : ℕ
  pub compile_output : Bytes
  pub network : Bool
