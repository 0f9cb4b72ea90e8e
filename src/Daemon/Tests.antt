-- ===== src/Daemon/Tests.antt =====
-- An environment with a list of keys, and a hash that pads its argument.
use isobox.Prelude.{Bytes, [], codes, none, refl, some, take, ◌++◌, ◌∷◌, ◌≡◌}
use isobox.Auth.{new_key_store, collect}
use isobox.Api.Gate.{Headers}
use isobox.Daemon.{KeyVars, load_key_store, usable, split_keys, fields_from}

abbrev zeros : Bytes
zeros = 0 ∷ 0 ∷ 0 ∷ 0 ∷ 0 ∷ 0 ∷ 0 ∷ 0 ∷ 0 ∷ 0 ∷ 0 ∷ 0 ∷ 0 ∷ 0 ∷ 0 ∷ 0 ∷ []

abbrev padded : Bytes → Bytes
padded b = take 32 (b ++ zeros ++ zeros)

abbrev listed : KeyVars
listed = record { keys_file = []; content = none; keys = codes ", k"; key = codes "old" }

abbrev tenant_k : Bytes
tenant_k =
    codes "6b" ++ codes "00000000000000000000000000000000" ++ codes "000000000000000000000000000000"

abbrev blank : KeyVars
blank = record { keys_file = codes "/keys"; content = some (codes ",,"); keys = []; key = [] }

blank-refused : load_key_store padded blank ≡ none
unfolding load_key_store usable split_keys fields_from new_key_store collect
blank-refused = refl

abbrev with_key : Headers
with_key = record { api_key = codes "x"; authorization = [] }
