-- ===== src/Auth.antt =====
-- internal/auth/keystore.go: the tenants of the API keys. SHA-256 is a parameter `sha256`, of
-- which the theorems use nothing but its being a function.
pub mod Laws
mod Tests
use isobox.Prelude.{
  Bool, Bytes, List, Option, [], codes, false, if◌then◌else◌, is_empty, keys, ltb, none, some, ℕ,
  ◌%◌, ◌++◌, ◌+◌, ◌/◌, ◌||◌, ◌∷◌,
}
use isobox.Strings.{trim_space, str_eq}

module _ (sha256 : Bytes → Bytes) where
  abbrev hex_digit : ℕ → ℕ
  hex_digit n = if ltb n 10 then 48 + n else 87 + n

  -- `hex.EncodeToString`
  unfoldable pub encode_hex : Bytes → Bytes
  encode_hex [] = []
  encode_hex (b ∷ bs) = hex_digit (b / 16) ∷ hex_digit (b % 16) ∷ encode_hex bs

  -- `deriveTenant`
  unfoldable pub derive_tenant : Bytes → Bytes
  unfolding encode_hex
  derive_tenant key = encode_hex (sha256 key)

  -- `slices` membership, as the map `seen` answers it.
  unfoldable pub seen : Bytes → List Bytes → Bool
  seen t [] = false
  seen t (u ∷ us) = str_eq t u || seen t us

  -- The loop of NewKeyStore over the raw keys, from the tenants found so far.
  unfoldable pub collect : List Bytes → List Bytes → List Bytes
  unfolding derive_tenant seen
  collect [] tenants = tenants
  collect (raw ∷ keys) tenants =
      let key = trim_space raw in
      let tenant = derive_tenant key in
      let skipped = is_empty key || seen tenant tenants in
      collect keys (if skipped then tenants else tenants ++ (tenant ∷ []))

  -- `NewKeyStore`: the tenants of the store.
  unfoldable pub new_key_store : List Bytes → List Bytes
  unfolding collect
  new_key_store keys = collect keys []

  -- `Resolve`: the tenant, or none where the caller has to answer 401.
  pub resolve : List Bytes → Bytes → Option Bytes
  unfolding derive_tenant seen
  resolve tenants key =
      let tenant = derive_tenant key in
      if is_empty tenants
      then some (codes "public")
      else if seen tenant tenants
      then some tenant
      else none
