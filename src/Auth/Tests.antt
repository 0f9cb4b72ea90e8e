-- ===== src/Auth/Tests.antt =====
-- A key store of one key, with a hash that keeps its argument.
use isobox.Prelude.{Bytes, [], arith, codes, inl, inr, refl, some, ◌∷◌, ◌≡◌}
use isobox.Auth.{resolve, new_key_store, derive_tenant}
use isobox.Auth.Laws.{Configured, resolve-new_key_store_iff}
use isobox.Strings.{trim_left, trim_right, trim_space}

abbrev same : Bytes → Bytes
same b = b

key-Configured : Configured same (derive_tenant same (codes "k")) (codes " k " ∷ [])
unfolding Configured trim_space trim_left trim_right
key-Configured = inl (ground arith, refl)

resolve-new_key_store_iff_example :
    resolve same (new_key_store same (codes " k " ∷ [])) (codes "k")
    ≡ some (derive_tenant same (codes "k"))
resolve-new_key_store_iff_example =
    (resolve-new_key_store_iff same (codes " k " ∷ []) (codes "k")
        (derive_tenant same (codes "k"))).1
      (inr (refl, key-Configured))
