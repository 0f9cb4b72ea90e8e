-- ===== src/Daemon/Laws.antt =====
-- cmd/isoboxd/main.go: loadKeyStore and the open mode.
use isobox.Prelude.{[], keys, ◌≡◌}
use isobox.Daemon.{KeyVars}

-- No variable of the keys is set.
abbrev pub IsUnset : KeyVars → Type 0
IsUnset v = (v.keys_file ≡ []) × (v.keys ≡ []) × (v.key ≡ [])
