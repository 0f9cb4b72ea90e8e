-- ===== src/Auth/Laws.antt =====
-- Which keys a key store lets in.
use isobox.Prelude.{
  Bytes, List, [], ap, arith, codes, false, if◌then◌else◌, inl, inr, is_empty, keys, length, refl,
  some, true, ◌*◌, ◌++◌, ◌||◌, ◌↔◌, ◌∷◌, ◌≡◌, ◌≢◌, ◌⊎◌,
}
use isobox.Auth.{collect, new_key_store, resolve, derive_tenant, seen, encode_hex}
use isobox.Strings.{trim_space}

module _ (sha256 : Bytes → Bytes) where
  -- Whether a configured key, trimmed and not blank, has this tenant.
  unfoldable pub Configured : Bytes → List Bytes → Type 0
  Configured t [] = ⊥
  Configured t (raw ∷ keys) =
      ((trim_space raw ≢ []) × (derive_tenant sha256 (trim_space raw) ≡ t)) ⊎ Configured t keys

  seen-append :
      (t u : Bytes) (us : List Bytes)
      → (seen sha256 t (us ++ (u ∷ [])) ≡ true) ↔ ((t ≡ u) ⊎ (seen sha256 t us ≡ true))
  unfolding seen
  seen-append t u [] = ((λ h. ground arith), (λ h. ground arith))
  seen-append t u (v ∷ us) =
      let (to, from) = seen-append t u us in
      ((λ h. ground (arith, to)), (λ h. ground (arith, from)))

  -- One raw key of the loop: it is skipped, or its tenant is added.
  abbrev next : Bytes → List Bytes → List Bytes
  next raw tenants =
      let key = trim_space raw in
      let tenant = derive_tenant sha256 key in
      if is_empty key || seen sha256 tenant tenants then tenants else tenants ++ (tenant ∷ [])

  next-seen :
      (t raw : Bytes) (tenants : List Bytes)
      → (seen sha256 t (next raw tenants) ≡ true) ↔ (
          ((trim_space raw ≢ []) × (derive_tenant sha256 (trim_space raw) ≡ t))
          ⊎ (seen sha256 t tenants ≡ true))
  next-seen t raw tenants =
      let (to, from) = seen-append t (derive_tenant sha256 (trim_space raw)) tenants in
      ((λ h. ground (arith, to)), (λ h. ground (arith, from)))

  collect-seen :
      (t : Bytes) (keys tenants : List Bytes)
      → (seen sha256 t (collect sha256 keys tenants) ≡ true)
        ↔ (Configured t keys ⊎ (seen sha256 t tenants ≡ true))
  unfolding collect Configured
  collect-seen t [] tenants = ((λ h. inr h), (λ h. elim h [ inl x ↦ elim x [ ] | inr x ↦ x ]))
  collect-seen t (raw ∷ keys) tenants =
      let (to, from) = collect-seen t keys (next raw tenants) in
      let (to', from') = next-seen t raw tenants in
      (
        (λ h. elim (to h) [
          | inl c ↦ inl (inr c)
          | inr s ↦ elim (to' s) [ inl k ↦ inl (inl k) | inr x ↦ inr x ]
        ]),
        (λ h. elim h [
          | inl c ↦ elim c [ inl k ↦ from (inr (from' (inl k))) | inr x ↦ from (inl x) ]
          | inr s ↦ from (inr (from' (inr s)))
        ]),
      )

  known-seen :
      (keys : List Bytes) (t : Bytes)
      → (seen sha256 t (new_key_store sha256 keys) ≡ true) ↔ Configured t keys
  unfolding new_key_store seen
  known-seen keys t =
      let (to, from) = collect-seen t keys [] in
      ((λ h. elim (to h) [ inl c ↦ c | inr x ↦ absurd (ground (arith, x)) ]), (λ c. from (inl c)))

  resolve_cases :
      (tenants : List Bytes) (key t : Bytes)
      → (resolve sha256 tenants key ≡ some t) ↔ (
          ((tenants ≡ []) × (t ≡ codes "public"))
          ⊎ ((t ≡ derive_tenant sha256 key)
              × (seen sha256 (derive_tenant sha256 key) tenants ≡ true)))
  unfolding resolve seen
  resolve_cases [] key t = ((λ h. ground arith), (λ h. ground arith))
  resolve_cases (u ∷ us) key t = ((λ h. ground arith), (λ h. ground arith))

  -- With a key configured, a request's key resolves exactly to the tenant that is derived from it,
  -- and only if a configured key has that tenant; with none, everybody is the public tenant.
  pub resolve-new_key_store_iff :
      (keys : List Bytes) (key t : Bytes)
      → (resolve sha256 (new_key_store sha256 keys) key ≡ some t) ↔ (
          ((new_key_store sha256 keys ≡ []) × (t ≡ codes "public"))
          ⊎ ((t ≡ derive_tenant sha256 key) × Configured (derive_tenant sha256 key) keys))
  resolve-new_key_store_iff keys key t =
      let (to, from) = resolve_cases (new_key_store sha256 keys) key t in
      let (known, back) = known-seen keys (derive_tenant sha256 key) in
      (
        (λ h. elim (to h) [ inl x ↦ inl x | inr x ↦ inr (x.0, known x.1) ]),
        (λ h. elim h [ inl x ↦ from (inl x) | inr x ↦ from (inr (x.0, back x.1)) ]),
      )

  length-encode_hex : (b : Bytes) → length (encode_hex sha256 b) ≡ 2 * length b
  unfolding encode_hex
  length-encode_hex [] = refl
  length-encode_hex (x ∷ b) = omega (arith, length-encode_hex b)

  -- A digest has 32 bytes, so that no key's tenant is the public one.
  pub derive_tenant-ne_public :
      (key : Bytes)
      → length (sha256 key) ≡ 32
      → (derive_tenant sha256 key ≢ codes "public") × (derive_tenant sha256 key ≢ [])
  unfolding derive_tenant
  derive_tenant-ne_public key h =
      let size = length-encode_hex (sha256 key) in
      (
        (λ e. absurd (omega (arith, size, h, ap length e))),
        (λ e. absurd (omega (arith, size, h, ap length e))),
      )

  -- A store without tenants lets everyone in as the public tenant.
  pub resolve_open :
      (key : Bytes) → resolve sha256 (new_key_store sha256 []) key ≡ some (codes "public")
  unfolding resolve new_key_store collect
  resolve_open key = refl

  -- A store with tenants lets nobody in as the public tenant.
  pub resolve_closed :
      (tenants : List Bytes) (key : Bytes)
      → length (sha256 key) ≡ 32
      → is_empty tenants ≡ false
      → resolve sha256 tenants key ≢ some (codes "public")
  unfolding resolve
  resolve_closed tenants key digest filled =
      let named = (derive_tenant-ne_public key digest).0 in λ h. named (ground (arith, h, filled))
