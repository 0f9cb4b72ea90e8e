-- ===== src/Executor/Gvisor/Tests.antt =====
-- A request for the network with a stale sentinel.
use isobox.Prelude.{[], codes, false, refl, some, true, ℕ, ◌↔◌, ◌∷◌, ◌≡◌}
use isobox.Executor.{Spec, Limits, Language}
use isobox.Executor.Gvisor.{net_mode, new_gvisor, network_enabled}
use isobox.Executor.Gvisor.Network.{network_enabled-net_mode_iff}

abbrev wants_network : Spec ℕ
wants_network =
    let l : Language = record { name = codes "python"; version = codes "3" } in
    let limits : Limits ℕ = record {
      memory_bytes = 0;
      cpus = 10;
      pids = 0;
      output_bytes = 0;
      wall_time_ms = 0;
      compile_time_ms = 0;
    } in
    record {
      lang = l;
      image = codes "python";
      compile = [];
      run = codes "python" ∷ [];
      workdir = [];
      env = [];
      scratch_exec = false;
      scratch_mb = 0;
      mounts = [];
      files = [];
      stdin = [];
      argv = [];
      limits = limits;
      network = true;
    }

network_enabled-net_mode_iff_example :
    (network_enabled new_gvisor wants_network (some 45) ≡ true) ↔ (
      net_mode new_gvisor (some 45)
      ≡ some (codes "runsc-net", codes "isobox-egress", codes "/etc/isobox/resolv.conf"))
network_enabled-net_mode_iff_example =
    network_enabled-net_mode_iff new_gvisor wants_network (some 45) refl
