-- ===== src/Executor/Gvisor/Network.antt =====
-- internal/executor/gvisor.go: the network decision, `networkEnabled` and `NetMode`.
use isobox.Prelude.{Option, arith, some, true, ℕ, ◌↔◌, ◌≡◌}
use isobox.Executor.{Spec}
use isobox.Executor.Gvisor.{Gvisor, network_enabled, net_mode}

-- A one-shot job that asks for the network and a kernel session that asks for it get it under the
-- same conditions.
pub network_enabled-net_mode_iff :
    {F : Type 0} (g : Gvisor) (s : Spec F) (age : Option ℕ)
    → s.network ≡ true
    → (network_enabled g s age ≡ true)
      ↔ (net_mode g age ≡ some (g.net_runtime, g.egress_network, g.resolv_conf))
unfolding network_enabled net_mode
network_enabled-net_mode_iff g s age h = ((λ e. ground arith), (λ e. ground arith))
