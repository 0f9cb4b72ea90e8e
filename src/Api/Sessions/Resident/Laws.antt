-- ===== src/Api/Sessions/Resident/Laws.antt =====
-- internal/api/sessions.go: what the creation of a kernel session leaves behind.
use isobox.Prelude.{
  Bool, Bool-cases, Bytes, Bytes-discrete, Option, [], ap, false, inl, inr, is_empty, is_empty_cons,
  is_empty_nil, lookup, none, refl, some, subst, sym, true, ◌∙◌, ◌≡◌, ◌≢◌, ◌⊎◌,
}
use isobox.Sched.Laws.{Slots}
use isobox.Session.{Session, Manager, Result, err, ok}
use isobox.Memory.Volume.{Disk, Volume, release, attach, VolError, key_of, set_holder}
use isobox.Memory.Volume
use isobox.Api.Sessions.{Server, CreateRequest, World, memory_mount}
use isobox.Api.Sessions.Resident.{
  kernel_opts, after_kernel, after_attach, attach_kernel_volume, create_kernel_session,
  start_kernel_session,
}
use isobox.Api.Sessions.Settle.{Completes, settle_same, IsSettled, Unlocked}
use isobox.Session.Sound.{IsConsistent, create-named}
use isobox.Session.Create.Entry.{Entered}
use isobox.Memory.Volume.Holders.{release-set_holder}
use isobox.Memory.Volume.Holders.{attach_cases}
use isobox.Session.Kernels.{mint_id}
use isobox.Memory.Volume.Holders.{free_before}

module _ (sl : Slots) (F : Type 0) where
  -- Create, without a volume.
  bare-Completes :
      (sv : Server sl F) (d : Disk) (tenant volume_id id : Bytes) (m : Manager sl F)
      (r : Result Session)
      → IsConsistent sl F m
      → Entered sl F id tenant sv.sessions (some (m, r))
      → is_empty volume_id ≡ true
      → Completes sl F id d tenant volume_id sv.volumes
          (after_kernel sl F sv tenant volume_id id (some (m, r)))
  unfolding after_kernel
  bare-Completes sv d tenant volume_id id m (ok s) kept (put, named, owned, quiet) blank =
      let (kept', same) = settle_same sl F (record sv { sessions = m }) kept quiet in
      (kept', (refl, named, inl (is_empty_nil volume_id blank, same)))
  bare-Completes sv d tenant volume_id id m (err e) kept (still, quiet) blank =
      rw (blank, after_kernel) (settle_same sl F (record sv { sessions = m }) kept quiet)

  -- Create, with an attached volume; a refusal releases it.
  mounted-Completes :
      (sv : Server sl F) (d : Disk) (tenant volume_id id path : Bytes) (v v' : Volume.Manager)
      (m : Manager sl F) (r : Result Session)
      → IsConsistent sl F m
      → Entered sl F id tenant sv.sessions (some (m, r))
      → is_empty volume_id ≡ false
      → attach v d tenant volume_id id true ≡ (v', inr (path, true))
      → release v' tenant volume_id id ≡ v
      → sv.volumes ≡ some v'
      → Completes sl F id d tenant volume_id
          (some v)
          (after_kernel sl F sv tenant volume_id id (some (m, r)))
  unfolding after_kernel
  mounted-Completes sv d tenant volume_id id path v v' m (ok s) kept (put, named, owned, quiet)
        given granted undone there =
      let (kept', same) = settle_same sl F (record sv { sessions = m }) kept quiet in
      (
        kept',
        (
          refl,
          named,
          inr (is_empty_cons volume_id given, (v, v', path, refl, granted, same ∙ there)),
        ),
      )
  mounted-Completes sv d tenant volume_id id path v v' m (err e) kept (still, quiet) given granted
        undone there =
      let (kept', same) = settle_same sl F (record sv { sessions = m }) kept quiet in
      rw (given, after_kernel) (kept', rw (same ∙ there) (ap some undone))

  start_bare-Completes :
      (sv : Server sl F) (w : World) (tenant id : Bytes) (req : CreateRequest)
      → id ≢ []
      → IsSettled sl F id sv
      → lookup Bytes-discrete id sv.sessions.sessions ≡ none
      → is_empty req.volume_id ≡ true
      → Completes sl F id w.disk tenant req.volume_id sv.volumes
          (start_kernel_session sl F sv w tenant id req [])
  unfolding start_kernel_session
  start_bare-Completes sv w tenant id req filled v fresh blank =
      let (m, r, made, kept, entered) =
        create-named sl F sv.sessions (kernel_opts tenant id req []) w.answers filled v.consistent
          (rw v.quiet tt) fresh in
      subst
        (λ x.
          Completes sl F id w.disk tenant req.volume_id sv.volumes
            (after_kernel sl F sv tenant req.volume_id id x))
        (sym made) (bare-Completes sv w.disk tenant req.volume_id id m r kept entered blank)

  start_kernel_session-Completes :
      (sv : Server sl F) (w : World) (tenant id path : Bytes) (req : CreateRequest)
      (v v' : Volume.Manager)
      → id ≢ []
      → IsSettled sl F id sv
      → lookup Bytes-discrete id sv.sessions.sessions ≡ none
      → is_empty req.volume_id ≡ false
      → attach v w.disk tenant req.volume_id id true ≡ (v', inr (path, true))
      → release v' tenant req.volume_id id ≡ v
      → Completes sl F id w.disk tenant req.volume_id (some v) (
          start_kernel_session sl F
            (record sv { volumes = some v' })
            w
            tenant
            id
            req
            (memory_mount path))
  unfolding start_kernel_session
  start_kernel_session-Completes sv w tenant id path req v v' filled settled fresh given granted
        undone =
      let (m, r, made, kept, entered) =
        create-named sl F sv.sessions (kernel_opts tenant id req (memory_mount path)) w.answers
          filled settled.consistent (rw settled.quiet tt) fresh in
      subst
        (λ x.
          Completes sl F id w.disk tenant req.volume_id (some v)
            (after_kernel sl F (record sv { volumes = some v' }) tenant req.volume_id id x))
        (sym made)
        (mounted-Completes (record sv { volumes = some v' }) w.disk tenant req.volume_id id path v
          v' m r kept entered given granted undone refl)

  attach_kernel_volume-Completes :
      (sv : Server sl F) (w : World) (tenant id : Bytes) (req : CreateRequest)
      (vols : Option Volume.Manager)
      → vols ≡ sv.volumes
      → id ≢ []
      → IsSettled sl F id sv
      → lookup Bytes-discrete id sv.sessions.sessions ≡ none
      → is_empty req.volume_id ≡ false
      → Completes sl F id w.disk tenant req.volume_id sv.volumes
          (attach_kernel_volume sl F sv w tenant id req vols)
  unfolding attach_kernel_volume after_attach start_kernel_session
  attach_kernel_volume-Completes sv w tenant id req none there filled settled fresh given =
      (settled.consistent, refl)
  attach_kernel_volume-Completes sv w tenant id req (some v) there filled settled fresh given =
      let free = subst (Unlocked id) (sym there) settled.unlocked in
      let goal : Volume.Manager × (VolError ⊎ (Bytes × Bool)) → Type 0 = λ y.
        Completes sl F id w.disk tenant req.volume_id (some v)
          (after_attach sl F sv w tenant id req y) in
      subst
        (λ x.
          Completes sl F id w.disk tenant req.volume_id x
            (after_attach sl F sv w tenant id req (attach v w.disk tenant req.volume_id id true)))
        there
        (elim (attach_cases v w.disk tenant req.volume_id id) [
          | inl (e, refusal) ↦ subst goal (sym refusal) (settled.consistent, refl)
          | inr (held, path, found, holder, granted) ↦ subst goal (sym granted) (
              start_kernel_session-Completes sv w tenant id path req v
                (set_holder v (key_of tenant req.volume_id) held id) filled settled fresh given
                granted
                (release-set_holder v tenant req.volume_id id held found
                  (free_before v tenant req.volume_id id held free found holder)))
        ])

  pub create_kernel_session-Completes :
      (sv : Server sl F) (w : World) (tenant : Bytes) (req : CreateRequest)
      → mint_id w.uuid ≢ []
      → IsSettled sl F (mint_id w.uuid) sv
      → lookup Bytes-discrete (mint_id w.uuid) sv.sessions.sessions ≡ none
      → Completes sl F
          (mint_id w.uuid)
          w.disk
          tenant
          req.volume_id
          sv.volumes
          (create_kernel_session sl F sv w tenant req)
  unfolding create_kernel_session
  create_kernel_session-Completes sv w tenant req filled v fresh =
      elim (Bool-cases (is_empty req.volume_id)) [
        | inl blank ↦
            rw (blank, create_kernel_session)
              (start_bare-Completes sv w tenant (mint_id w.uuid) req filled v fresh blank)
        | inr given ↦
            rw (given, create_kernel_session)
              (attach_kernel_volume-Completes sv w tenant (mint_id w.uuid) req sv.volumes refl
                filled v fresh given)
      ]
