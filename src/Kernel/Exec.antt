-- ===== src/Kernel/Exec.antt =====
-- internal/session/kernel.go: one step of a resident kernel, from the lines that its container
-- writes. The lines are an input, as are whether the deadline has passed by each of them and the
-- duration so far; a line that is not JSON is none. The capped buffer is CapWriter's contract again.
pub mod Laws
pub mod Step
mod Tests
use isobox.Prelude.{
  Bool, Bytes, List, Option, [], codes, false, if◌then◌else◌, is_empty, leb, length, ltb, none, not,
  some, take, true, ℕ, ◌++◌, ◌+◌, ◌-◌, ◌==◌, ◌||◌, ◌∷◌,
}
use isobox.Prelude.Float.{Float64}
use isobox.Executor.{Mount, Outcome}
use isobox.Executor.Gvisor.{Gvisor, mount_args, decimal, net_mode}
use isobox.Strings.{str_eq}
use isobox.Kernel.{KernelConfig}

-- `capBuf`
pub record CapBuf : Type 0 where
  pub b : Bytes
  pub limit : ℕ
  pub n : ℕ
  pub truncated : Bool

abbrev pub new_buf : ℕ → CapBuf
new_buf limit = record { b = []; limit = limit; n = 0; truncated = false }

-- `capBuf.Write`
pub write : CapBuf → Bytes → CapBuf
write w p =
    let room = w.limit - w.n in
    if leb w.limit w.n
    then record w { truncated = true }
    else if ltb room (length p)
    then record w { b = w.b ++ take room p; n = w.limit; truncated = true }
    else record w { b = w.b ++ p; n = w.n + length p }

-- `clip`, of the buffer after the write.
pub clip : Bytes → CapBuf → Bytes
clip p w = if w.truncated then [] else p

-- `kResp`
pub record Frame : Type 0 where
  pub id : Bytes
  pub kind : Bytes
  pub stream : Bytes
  pub payload : Bytes
  pub is_ok : Bool
  pub truncated : Bool
  pub duration_ms : ℕ
  pub error : Bytes

-- A line of the container, whether the deadline had passed, and the duration until then.
pub record Line : Type 0 where
  pub frame : Option Frame
  pub timed_out : Bool
  pub elapsed_ms : ℕ

-- What a step comes to: a result, the result with the error of a stream that closed, or a fatal
-- frame.
pub data Ending : Type 0 where
  done closed fatal : Outcome → Ending

-- The two buffers, and what the sink was given: stdout and stderr, the first chunk first.
pub record Progress : Type 0 where
  pub out : CapBuf
  pub errors : CapBuf
  pub sent_out : Bytes
  pub sent_errors : Bytes

abbrev pub new_progress : ℕ → Progress
new_progress limit = record {
  out = new_buf limit;
  errors = new_buf limit;
  sent_out = [];
  sent_errors = [];
}

-- A "stream" frame.
pub stream_step : Progress → Frame → Progress
unfolding write clip
stream_step p f =
    if str_eq f.stream (codes "stderr")
    then (let w = write p.errors f.payload in
        record p { errors = w; sent_errors = p.sent_errors ++ clip f.payload w })
    else (let w = write p.out f.payload in
        record p { out = w; sent_out = p.sent_out ++ clip f.payload w })

abbrev outcome : Bytes → Bytes → ℕ → Bool → Bool → ℕ → Outcome
outcome stdout stderr code timed_out truncated duration = record {
  stdout = stdout;
  stderr = stderr;
  exit_code = code;
  timed_out = timed_out;
  oom_killed = false;
  truncated = truncated;
  duration_ms = duration;
  compile_output = [];
  network = false;
}

-- A "result" frame.
pub result_of : Progress → Line → Frame → Outcome
result_of p l f =
    outcome p.out.b p.errors.b (if l.timed_out then 137 else if f.is_ok then 0 else 1) l.timed_out
      (f.truncated || p.out.truncated || p.errors.truncated)
      (if f.duration_ms == 0 then l.elapsed_ms else f.duration_ms)

-- The stream that ends, after the last line.
pub closed_of : Progress → Bool → ℕ → Ending
closed_of p timed_out elapsed =
    let r = outcome p.out.b p.errors.b 137 timed_out false elapsed in
    if timed_out then done r else closed r

-- The read loop of Exec for one step id, with what holds at the end of the stream: the progress,
-- the ending and whether the kernel is marked dead.
pub read_frames : Bytes → Progress → List Line → Bool → ℕ → Progress × Ending × Bool
unfolding stream_step result_of closed_of
read_frames step p [] timed_out elapsed = (p, closed_of p timed_out elapsed, true)
read_frames step p (l ∷ ls) timed_out elapsed =
    let skip = read_frames step p ls timed_out elapsed in
    elim l.frame [
      | none ↦ skip
      | some f ↦
          let streamed = read_frames step (stream_step p f) ls timed_out elapsed in
          if not (str_eq f.id step)
          then skip
          else if str_eq f.kind (codes "stream")
          then streamed
          else if str_eq f.kind (codes "result")
          then (p, done (result_of p l f), false)
          else if str_eq f.kind (codes "fatal")
          then (p, fatal (outcome [] (p.out.b ++ f.error) 1 false false l.elapsed_ms), true)
          else skip
    ]

-- `buildKernelRunArgs`, from the answer of NetMode and the age of the sentinel behind it.
pub build_kernel_run_args :
    {F : Type 0}
    → Float64 F
    → Gvisor
    → KernelConfig F
    → Option ℕ
    → Bytes
    → Bytes
    → Bytes
    → List Mount
    → Bool
    → List Bytes
build_kernel_run_args fl g cfg age name session image mounts network =
    let granted : Option (Bytes × Bytes × Bytes) = if network then net_mode g age else none in
    let mem = decimal cfg.memory_bytes in
    let (runtime, flag, resolv) : Bytes × Bytes × List Bytes = elim granted [
      | none ↦ (g.runtime, codes "--network=none", [])
      | some (runtime, net, conf) ↦ (
        runtime,
        codes "--network=" ++ net,
        if is_empty conf then [] else codes "-v" ∷ (conf ++ codes ":/etc/resolv.conf:ro") ∷ [],
      )
    ] in
    (codes "-d"
      ∷ codes "-i"
      ∷ codes "--name"
      ∷ name
      ∷ codes "--runtime"
      ∷ runtime
      ∷ flag
      ∷ codes "--read-only"
      ∷ codes "--tmpfs"
      ∷ codes "/tmp:rw,noexec,nosuid,nodev,size=64m,nr_inodes=4096"
      ∷ codes "-w"
      ∷ codes "/workspace"
      ∷ codes "--memory"
      ∷ mem
      ∷ codes "--memory-swap"
      ∷ mem
      ∷ codes "--cpus"
      ∷ fl.format2 cfg.cpus
      ∷ codes "--pids-limit"
      ∷ decimal cfg.pids
      ∷ codes "--cap-drop=ALL"
      ∷ codes "--security-opt=no-new-privileges"
      ∷ (codes "--user=" ++ g.user)
      ∷ (codes "--cgroup-parent=" ++ g.slice)
      ∷ codes "--hostname=sandbox"
      ∷ codes "--label"
      ∷ codes "isobox.managed=true"
      ∷ codes "--label"
      ∷ codes "isobox.kernel=true"
      ∷ codes "--label"
      ∷ (codes "isobox.session=" ++ session)
      ∷ codes "--env"
      ∷ codes "HOME=/tmp"
      ∷ codes "--env"
      ∷ (codes "ISOBOX_KERNEL_OUTPUT_BYTES=" ++ decimal cfg.output_bytes)
      ∷ codes "--env"
      ∷ codes "PYTHONDONTWRITEBYTECODE=1"
      ∷ [])
    ++ resolv
    ++ mount_args mounts
    ++ (image ∷ [])
