-- ===== src/Daemon.antt =====
-- cmd/isoboxd/main.go: what the daemon reads from its environment. A variable that is not set is
-- an empty one, and none stands for os.Exit(1).
pub mod Laws
mod Tests
use isobox.Prelude.{
  Bool, Bytes, List, Option, [], codes, false, if◌then◌else◌, is_empty, none, not, some, true, ℕ,
  ◌&&◌, ◌++◌, ◌==◌, ◌||◌, ◌∷◌,
}
use isobox.Auth.{new_key_store}
use isobox.Strings.{str_eq}

-- The variables of the API keys; `content` is what os.ReadFile gives of the file.
pub record KeyVars : Type 0 where
  pub keys_file : Bytes
  pub content : Option Bytes
  pub keys : Bytes
  pub key : Bytes

abbrev is_separator : ℕ → Bool
is_separator c = c == 10 || c == 13 || c == 44 || c == 9

-- A field that is not empty.
abbrev and_field : Bytes → List Bytes → List Bytes
and_field field rest = if is_empty field then rest else field ∷ rest

-- strings.FieldsFunc, from the field that is read so far.
fields_from : Bytes → Bytes → List Bytes
fields_from field [] = and_field field []
fields_from field (c ∷ s) =
    let next = fields_from [] s in
    let longer = fields_from (field ++ (c ∷ [])) s in
    if is_separator c then and_field field next else longer

-- `splitKeys`
pub split_keys : Bytes → List Bytes
unfolding fields_from
split_keys s = fields_from [] s

-- `env`
pub env : Bytes → Bytes → Bytes
env value def = if is_empty value then def else value

-- `envBool`
pub env_bool : Bytes → Bool → Bool
env_bool value def =
    if str_eq value (codes "1")
      || str_eq value (codes "true")
      || str_eq value (codes "yes")
      || str_eq value (codes "on")
    then true
    else if str_eq value (codes "0")
        || str_eq value (codes "false")
        || str_eq value (codes "no")
        || str_eq value (codes "off")
    then false
    else def

-- `firstExisting`, from the last candidate seen; `exists` tells of a path that os.Stat finds it.
pub first_existing : (Bytes → Bool) → Bytes → List Bytes → Bytes
first_existing exists last [] = last
first_existing exists last (p ∷ ps) =
    let rest = first_existing exists p ps in if not (is_empty p) && exists p then p else rest

module _ (sha256 : Bytes → Bytes) where
  -- The store of some keys, or the exit where none is usable.
  pub usable : List Bytes → Option (List Bytes)
  usable keys =
      let tenants = new_key_store sha256 keys in if is_empty tenants then none else some tenants

  -- `loadKeyStore`
  pub load_key_store : KeyVars → Option (List Bytes)
  unfolding usable split_keys
  load_key_store v =
      if not (is_empty v.keys_file)
      then elim v.content [ none ↦ none | some blob ↦ usable (split_keys blob) ]
      else if not (is_empty v.keys)
      then usable (split_keys v.keys)
      else if not (is_empty v.key)
      then usable (v.key ∷ [])
      else some (new_key_store sha256 [])
