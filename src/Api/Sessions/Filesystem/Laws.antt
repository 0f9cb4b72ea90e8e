-- ===== src/Api/Sessions/Filesystem/Laws.antt =====
-- internal/api/sessions.go: what the creation of a filesystem session leaves behind.
use isobox.Prelude.{
  All, Bool, Bool-cases, Bytes, Bytes-discrete, Option, [], ap, codes, false, inl, inr, is_empty,
  is_empty_cons, is_empty_nil, lookup, lookup-update_self, none, refl, some, subst, sym, true, ◌++◌,
  ◌∙◌, ◌≡◌, ◌≢◌, ◌⊎◌,
}
use isobox.Sched.Laws.{Slots}
use isobox.Session.{Session, set_mounts, Manager, Result, err, ok}
use isobox.Memory.Volume.{Disk, set_holder, key_of, Volume, attach, release, VolError}
use isobox.Memory.Volume
use isobox.Api.Sessions.{
  Server, memory_mount, refuse_after, roll_back, World, put_sessions, CreateRequest,
}
use isobox.Api.Sessions.Filesystem.{
  after_mount, after_attach, attach_volume, after_create, continue_with, dropped, interleave,
  create_filesystem_session,
}
use isobox.Api.Sessions.Settle.{
  IsSettled, Completes, Unlocked, refuse_after-Completes, settle-IsSettled, none_dropped,
  settle_same,
}
use isobox.Memory.Volume.Holders.{release-set_holder}
use isobox.Memory.Volume.Holders.{attach_cases}
use isobox.Session.Sound.{set_mounts_cases, IsConsistent, remove-IsKeyed, create-IsConsistent}
use isobox.Memory.Volume.Holders.{free_before}
use isobox.Api.Errors.{write_sess_err}
use isobox.Api.Errors.{write_vol_err}
use isobox.Session.Teardown.Balance.{drop-IsBalanced}
use isobox.Session.Teardown.Effects.{drop-Quiet}
use isobox.Session.Create.Entry.{Entered}
use isobox.Session.Teardown.Effects.{OnlyDrops}
use isobox.Session.Teardown.Effects.{Quiet}

module _ (sl : Slots) (F : Type 0) where
  mount_volume-Completes :
      (sv : Server sl F) (d : Disk) (s : Session) (tenant volume_id path : Bytes)
      (v v' : Volume.Manager)
      → IsSettled sl F s.id (record sv { volumes = some v })
      → volume_id ≢ []
      → attach v d tenant volume_id s.id true ≡ (v', inr (path, true))
      → release v' tenant volume_id s.id ≡ v
      → Completes sl F s.id d tenant volume_id (some v) (
          after_mount sl F
            (record sv { volumes = some v' })
            s
            tenant
            volume_id
            (set_mounts sl F sv.sessions s.id s.token tenant (memory_mount path)))
  unfolding after_mount
  mount_volume-Completes sv d s tenant volume_id path v v' settled named granted undone =
      let goal : Manager sl F × Result (Unit {0}) → Type 0 = λ y.
        Completes sl F s.id d tenant volume_id (some v)
          (after_mount sl F (record sv { volumes = some v' }) s tenant volume_id y) in
      elim (set_mounts_cases sl F sv.sessions s.id s.token tenant (memory_mount path)
        settled.consistent) [
          | inr (m', mounted, kept) ↦
              subst goal (sym mounted)
                (kept, (refl, refl, inr (named, (v, v', path, refl, granted, refl))))
          | inl (e, gone) ↦ subst goal (sym gone) (
              subst
                (λ u. Completes sl F s.id d tenant volume_id (some v) (
                  refuse_after sl F (roll_back sl F (record sv { volumes = some u }) s tenant)
                    (write_sess_err false e)))
                (sym undone)
                (refuse_after-Completes sl F s.id d (record sv { volumes = some v }) s tenant tenant
                  volume_id (some v) (write_sess_err false e) settled refl))
        ]

  attach_volume-Completes :
      (sv : Server sl F) (d : Disk) (s : Session) (tenant volume_id : Bytes)
      (vols : Option Volume.Manager)
      → vols ≡ sv.volumes
      → IsSettled sl F s.id sv
      → volume_id ≢ []
      → Completes sl F s.id d tenant volume_id sv.volumes
          (attach_volume sl F sv d s tenant volume_id vols)
  unfolding attach_volume after_attach
  attach_volume-Completes sv d s tenant volume_id none there settled named =
      refuse_after-Completes sl F s.id d sv s tenant tenant volume_id sv.volumes _ settled refl
  attach_volume-Completes sv d s tenant volume_id (some v) there settled named =
      let free = subst (Unlocked s.id) (sym there) settled.unlocked in
      let alone : IsSettled sl F s.id (record sv { volumes = some v }) = record {
        consistent = settled.consistent;
        quiet = settled.quiet;
        unlocked = free;
      } in
      let goal : Volume.Manager × (VolError ⊎ (Bytes × Bool)) → Type 0 = λ y.
        Completes sl F s.id d tenant volume_id (some v)
          (after_attach sl F sv s tenant volume_id y) in
      subst
        (λ x.
          Completes sl F s.id d tenant volume_id x
            (after_attach sl F sv s tenant volume_id (attach v d tenant volume_id s.id true)))
        there
        (elim (attach_cases v d tenant volume_id s.id) [
          | inl (e, refusal) ↦ subst goal (sym refusal) (
              refuse_after-Completes sl F s.id d (record sv { volumes = some v }) s tenant tenant
                volume_id (some v) (write_vol_err e) alone refl)
          | inr (held, path, found, holder, granted) ↦
              let before = free_before v tenant volume_id s.id held free found holder in
              subst goal (sym granted) (
                mount_volume-Completes sv d s tenant volume_id path v
                  (set_holder v (key_of tenant volume_id) held s.id) alone named granted
                  (release-set_holder v tenant volume_id s.id held found before))
        ])

  interleave-IsSettled :
      (sv : Server sl F) (b : Bool) (s : Session)
      → IsSettled sl F s.id sv
      → lookup Bytes-discrete s.id sv.sessions.sessions ≡ some s
      → (sv' : Server sl F) × (interleave sl F sv b s ≡ some sv')
        × IsSettled sl F s.id sv'
        × (sv'.volumes ≡ sv.volumes)
  unfolding interleave dropped
  interleave-IsSettled sv false s v there = (sv, refl, v, refl)
  interleave-IsSettled sv true s v there =
      let (m, torn, kept, left, config) =
        drop-IsBalanced sl F sv.sessions s v.consistent.balanced there in
      let quiet : All (OnlyDrops s.id) m.effects =
        subst (Quiet sl F s.id) torn (drop-Quiet sl F sv.sessions s (rw v.quiet tt)) in
      let consistent : IsConsistent sl F m = record {
        balanced = kept;
        keyed = rw left (remove-IsKeyed sl F s.id sv.sessions.sessions v.consistent.keyed);
      } in
      let (settled, same, _) =
        settle-IsSettled sl F (record sv { sessions = m }) s.id consistent quiet v.unlocked in
      (put_sessions sl F sv m, ap (dropped sl F sv) torn, settled, same)

  continue_with-Completes :
      (sv : Server sl F) (w : World) (tenant volume_id : Bytes) (s : Session)
      → IsSettled sl F s.id sv
      → Completes sl F s.id w.disk tenant volume_id sv.volumes
          (continue_with sl F w tenant volume_id s (some sv))
  unfolding continue_with
  continue_with-Completes sv w tenant volume_id s v = elim (Bool-cases (is_empty volume_id)) [
    | inl blank ↦
        rw (blank, continue_with, Completes)
          (v.consistent, (refl, refl, inl (is_empty_nil volume_id blank, refl)))
    | inr given ↦
        rw (given, continue_with)
          (attach_volume-Completes sv w.disk s tenant volume_id sv.volumes refl v
            (is_empty_cons volume_id given))
  ]

  after_create-Completes :
      (sv : Server sl F) (w : World) (tenant volume_id id : Bytes) (m : Manager sl F)
      (r : Result Session)
      → IsSettled sl F id sv
      → IsConsistent sl F m
      → Entered sl F id tenant sv.sessions (some (m, r))
      → Completes sl F id w.disk tenant volume_id sv.volumes
          (after_create sl F sv w tenant volume_id (some (m, r)))
  unfolding after_create
  after_create-Completes sv w tenant volume_id id m (err e) v kept entered =
      settle_same sl F (record sv { sessions = m }) kept entered.1
  after_create-Completes sv w tenant volume_id id m (ok s) v kept (put, named, owned, quiet) =
      let (settled, same, still) =
        settle-IsSettled sl F (record sv { sessions = m }) s.id kept
          (none_dropped s.id m.effects quiet)
          (subst (λ j. Unlocked j sv.volumes) (sym named) v.unlocked) in
      let there : lookup Bytes-discrete s.id (put_sessions sl F sv m).sessions.sessions ≡ some s =
        rw (still, put) (lookup-update_self Bytes-discrete s.id s sv.sessions.sessions) in
      let (sv', met, settled', same') =
        interleave-IsSettled (put_sessions sl F sv m) w.swept s settled there in
      subst
        (λ x.
          Completes sl F id w.disk tenant volume_id sv.volumes
            (continue_with sl F w tenant volume_id s x))
        (sym met)
        (subst
          (λ j.
            Completes sl F j w.disk tenant volume_id sv.volumes
              (continue_with sl F w tenant volume_id s (some sv')))
          named
          (subst
            (λ x.
              Completes sl F s.id w.disk tenant volume_id x
                (continue_with sl F w tenant volume_id s (some sv')))
            (same' ∙ same) (continue_with-Completes sv' w tenant volume_id s settled')))

  pub create_filesystem_session-Completes :
      (sv : Server sl F) (w : World) (tenant kind : Bytes) (req : CreateRequest)
      → IsSettled sl F (codes "sess_" ++ w.answers.uuid) sv
      → lookup Bytes-discrete (codes "sess_" ++ w.answers.uuid) sv.sessions.sessions ≡ none
      → Completes sl F
          (codes "sess_" ++ w.answers.uuid)
          w.disk
          tenant
          req.volume_id
          sv.volumes
          (create_filesystem_session sl F sv w tenant kind req)
  unfolding create_filesystem_session
  create_filesystem_session-Completes sv w tenant kind req v fresh =
      let (m, r, made, kept, entered) =
        create-IsConsistent sl F sv.sessions _ w.answers v.consistent (rw v.quiet tt) fresh in
      subst
        (λ x.
          Completes sl F (codes "sess_" ++ w.answers.uuid) w.disk tenant req.volume_id sv.volumes
            (after_create sl F sv w tenant req.volume_id x))
        (sym made)
        (after_create-Completes sv w tenant req.volume_id (codes "sess_" ++ w.answers.uuid) m r v
          kept entered)
