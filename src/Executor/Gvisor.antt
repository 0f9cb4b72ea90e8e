-- ===== src/Executor/Gvisor.antt =====
-- internal/executor/gvisor.go: the decision on network access, and the arguments of `docker run`.
-- The age of the egress sentinel, none where the file cannot be read, is an input.
pub mod Network
mod Tests
use isobox.Prelude.{
  update, Bytes-discrete, Bool, Bytes, List, Option, [], codes, false, if◌then◌else◌, is_empty, ltb,
  none, not, some, suc, true, zero, ℕ, ◌%◌, ◌&&◌, ◌*◌, ◌++◌, ◌+◌, ◌/◌, ◌^◌, ◌∷◌,
}
use isobox.Prelude.Float.{Float64}
use isobox.Executor.{Limits, Mount, Spec}
use isobox.Kernel.{default, second}
use isobox.Executor.Shell.{sh_join}

pub record Gvisor : Type 0 where
  pub runtime : Bytes
  pub net_runtime : Bytes
  pub slice : Bytes
  pub job_root : Bytes
  pub user : Bytes
  pub allow_network : Bool
  pub egress_network : Bytes
  pub resolv_conf : Bytes
  pub sentinel : Bytes
  pub sentinel_max_age : ℕ

-- `NewGvisor`
abbrev pub new_gvisor : Gvisor
new_gvisor = record {
  runtime = codes "runsc-untrusted";
  net_runtime = codes "runsc-net";
  slice = codes "isobox.slice";
  job_root = [];
  user = codes "65534:65534";
  allow_network = true;
  egress_network = codes "isobox-egress";
  resolv_conf = codes "/etc/isobox/resolv.conf";
  sentinel = codes "/etc/isobox/egress-ok";
  sentinel_max_age = 240 * second;
}

-- `egressFirewallFresh`
pub egress_firewall_fresh : Gvisor → Option ℕ → Bool
egress_firewall_fresh g age =
    if is_empty g.sentinel
    then true
    else elim age [ none ↦ false | some a ↦ ltb a g.sentinel_max_age ]

-- `networkEnabled`
pub network_enabled : {F : Type 0} → Gvisor → Spec F → Option ℕ → Bool
unfolding egress_firewall_fresh
network_enabled g s age =
    s.network
    && (g.allow_network && (not (is_empty g.egress_network) && egress_firewall_fresh g age))

-- `NetMode`: the runtime, the network and the resolver file; none where it is refused.
pub net_mode : Gvisor → Option ℕ → Option (Bytes × Bytes × Bytes)
unfolding egress_firewall_fresh
net_mode g age =
    if g.allow_network && (not (is_empty g.egress_network) && egress_firewall_fresh g age)
    then some (g.net_runtime, g.egress_network, g.resolv_conf)
    else none

-- `strconv.FormatInt` of a number of at most the given number of digits.
unfoldable pub decimal_within : ℕ → ℕ → Bytes
decimal_within zero n = []
decimal_within (suc fuel) n =
    let rest = decimal_within fuel (n / 10) in
    if ltb n 10 then (48 + n) ∷ [] else rest ++ ((48 + n % 10) ∷ [])

-- An int64 has at most 19 digits.
pub decimal : ℕ → Bytes
decimal n = decimal_within 19 n

-- The binds of the spec's mounts.
pub mount_args : List Mount → List Bytes
mount_args [] = []
mount_args (m ∷ ms) =
    codes "-v"
    ∷ (m.host_path
        ++ codes ":"
        ++ m.target
        ++ codes ":"
        ++ (if m.rw then codes "rw" else codes "ro"))
    ∷ mount_args ms

-- The `--env` options. The map env starts with HOME; the iteration order is that of the list.
pub env_args : List (Bytes × Bytes) → List Bytes
env_args [] = []
env_args ((k, v) ∷ e) = codes "--env" ∷ (k ++ codes "=" ++ v) ∷ env_args e

-- The spec's environment over HOME=/tmp.
pub env_of : List (Bytes × Bytes) → List (Bytes × Bytes)
env_of [] = (codes "HOME", codes "/tmp") ∷ []
env_of ((k, v) ∷ e) = update Bytes-discrete k v (env_of e)

-- The tmpfs option.
pub tmpfs_of : Bool → ℕ → Bytes
unfolding decimal
tmpfs_of exec mb =
    codes "/tmp:rw,"
    ++ (if exec then codes "exec" else codes "noexec")
    ++ codes ",nosuid,nodev,size="
    ++ decimal mb
    ++ codes "m,nr_inodes="
    ++ decimal (mb * 64)

-- The runtime and the network options.
pub net_args : Gvisor → Bool → List Bytes
net_args g on =
    (codes "--runtime" ∷ (if on then g.net_runtime else g.runtime) ∷ [])
    ++ ((if on then codes "--network=" ++ g.egress_network else codes "--network=none") ∷ [])
    ++ (if on && not (is_empty g.resolv_conf)
        then codes "-v" ∷ (g.resolv_conf ++ codes ":/etc/resolv.conf:ro") ∷ []
        else [])

-- The caps and the hardening options, which no spec can leave out.
pub hardening_args : {F : Type 0} → Float64 F → Gvisor → Limits F → List Bytes
unfolding decimal
hardening_args fl g l =
    let mem = decimal (default l.memory_bytes (256 * 2 ^ 20)) in
    codes "--memory"
    ∷ mem
    ∷ codes "--memory-swap"
    ∷ mem
    ∷ codes "--cpus"
    ∷ fl.format2 (if fl.le l.cpus fl.zero then fl.one else l.cpus)
    ∷ codes "--pids-limit"
    ∷ decimal (default l.pids 128)
    ∷ codes "--cap-drop=ALL"
    ∷ codes "--security-opt=no-new-privileges"
    ∷ (codes "--user=" ++ g.user)
    ∷ (codes "--cgroup-parent=" ++ g.slice)
    ∷ codes "--hostname=sandbox"
    ∷ codes "--label"
    ∷ codes "isobox.managed=true"
    ∷ []

-- `buildRunArgs`
pub build_run_args :
    {F : Type 0} → Float64 F → Gvisor → Option ℕ → Bytes → Bytes → Spec F → List Bytes
unfolding network_enabled net_args hardening_args mount_args env_args env_of tmpfs_of
build_run_args fl g age name job_dir s =
    (codes "--name" ∷ name ∷ [])
    ++ net_args g (network_enabled g s age)
    ++ (codes "--read-only"
        ∷ codes "--tmpfs"
        ∷ tmpfs_of s.scratch_exec (default s.scratch_mb 64)
        ∷ codes "-v"
        ∷ (job_dir ++ codes ":/box:ro")
        ∷ codes "-w"
        ∷ (if is_empty s.workdir then codes "/box" else s.workdir)
        ∷ [])
    ++ hardening_args fl g s.limits
    ++ mount_args s.mounts
    ++ env_args (env_of s.env)
    ++ (s.image ∷ [])

-- The shell script of `Execute`.
pub script_of : {F : Type 0} → Spec F → Bytes
unfolding sh_join
script_of s =
    codes "set -e; "
    ++ (if is_empty s.compile then [] else sh_join s.compile ++ codes "; ")
    ++ codes "exec "
    ++ sh_join s.run
    ++ codes " \"$@\""

-- The deadline of `Execute` in milliseconds, and the cap of each output stream.
pub wall_ms : {F : Type 0} → Limits F → ℕ
wall_ms l = default l.wall_time_ms 10_000

pub output_cap : {F : Type 0} → Limits F → ℕ
output_cap l = default l.output_bytes (64 * 2 ^ 10)
