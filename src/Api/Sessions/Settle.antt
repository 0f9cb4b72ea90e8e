-- ===== src/Api/Sessions/Settle.antt =====
-- internal/api/sessions.go: the volumes and the sessions of the server, after a call of the
-- session manager and a rollback.
use isobox.Prelude.{
  All, Bytes, List, Option, Option-cases, [], ap, arith, inl, inr, none, refl, some, subst, sym,
  true, ◌∙◌, ◌∷◌, ◌≡◌, ◌≢◌, ◌⊎◌,
}
use isobox.Sched.Laws.{Slots}
use isobox.Session.{Effect, make_dir, on_drop, remove_container, remove_dir, Manager, Session, ok}
use isobox.Session.Teardown.Effects.{NoDrop, OnlyDrops, QuietResult, destroy_session-Quiet}
use isobox.Memory.Volume.Holders.{IsFreeOf, release_all_same}
use isobox.Memory.Volume
use isobox.Api.Sessions.{Server, settle, release_dropped, roll_back, refuse_after}
use isobox.Session.Sound.{authed-own, destroy_session-IsConsistent, IsConsistent}
use isobox.Memory.Volume.{Disk, Volume}
use isobox.Api.Reply.{Reply, refused, sent}
use isobox.Api.Reply.{Response}
use isobox.Memory.Volume.{attach}

-- No volume is locked by the session.
abbrev pub Unlocked : Bytes → Option Volume.Manager → Type 0
Unlocked id none = Unit
Unlocked id (some v) = IsFreeOf id v

release_dropped_same :
    (id : Bytes) (es : List Effect) (v : Volume.Manager)
    → All (OnlyDrops id) es
    → IsFreeOf id v
    → release_dropped es v ≡ v
unfolding release_dropped
release_dropped_same id [] v h f = refl
release_dropped_same id (make_dir d ∷ es) v h f = release_dropped_same id es v h.1 f
release_dropped_same id (remove_dir d ∷ es) v h f = release_dropped_same id es v h.1 f
release_dropped_same id (remove_container c ∷ es) v h f = release_dropped_same id es v h.1 f
release_dropped_same id (on_drop j ∷ es) v h f =
    rw (release_dropped_same id es v h.1 f, h.0) (release_all_same id v f)

release_dropped_none :
    (es : List Effect) (v : Volume.Manager) → All NoDrop es → release_dropped es v ≡ v
unfolding release_dropped
release_dropped_none [] v h = refl
release_dropped_none (make_dir d ∷ es) v h = release_dropped_none es v h.1
release_dropped_none (remove_dir d ∷ es) v h = release_dropped_none es v h.1
release_dropped_none (remove_container c ∷ es) v h = release_dropped_none es v h.1
release_dropped_none (on_drop j ∷ es) v h = elim h.0 [ ]

-- A call that drops nothing drops no other session.
pub none_dropped : (id : Bytes) (es : List Effect) → All NoDrop es → All (OnlyDrops id) es
none_dropped id [] h = tt
none_dropped id (make_dir d ∷ es) h = (tt, none_dropped id es h.1)
none_dropped id (remove_dir d ∷ es) h = (tt, none_dropped id es h.1)
none_dropped id (remove_container c ∷ es) h = (tt, none_dropped id es h.1)
none_dropped id (on_drop j ∷ es) h = elim h.0 [ ]

module _ (sl : Slots) (F : Type 0) where
  pub settle-volumes :
      (sv : Server sl F) (id : Bytes)
      → All (OnlyDrops id) sv.sessions.effects
      → Unlocked id sv.volumes
      → (settle sl F sv).volumes ≡ sv.volumes
  unfolding settle
  settle-volumes sv id h f = elim (Option-cases sv.volumes) [
    | inl off ↦ rw off refl
    | inr (v, there) ↦
        rw there
          (ap some (release_dropped_same id sv.sessions.effects v h (subst (Unlocked id) there f)))
  ]

  -- Nothing is to be done after a call without effects.
  pub settle-quiet : (sv : Server sl F) → sv.sessions.effects ≡ [] → settle sl F sv ≡ sv
  unfolding settle release_dropped
  settle-quiet sv h = elim (Option-cases sv.volumes) [
    | inl off ↦ ground (arith, h, off)
    | inr (v, there) ↦ ground (arith, h, there)
  ]

  quiet-IsConsistent :
      (m : Manager sl F) → IsConsistent sl F m → IsConsistent sl F (record m { effects = [] })
  quiet-IsConsistent m v = record {
    balanced = record { distinct = v.balanced.distinct; matched = v.balanced.matched };
    keyed = v.keyed;
  }

  -- The server between two calls of a handler on behalf of a session: nothing that it released
  -- or entered is left open.
  pub record IsSettled (id : Bytes) (sv : Server sl F) : Type 0 where
    pub consistent : IsConsistent sl F sv.sessions
    pub quiet : sv.sessions.effects ≡ []
    pub unlocked : Unlocked id sv.volumes

  pub settle-IsSettled :
      (sv : Server sl F) (id : Bytes)
      → IsConsistent sl F sv.sessions
      → All (OnlyDrops id) sv.sessions.effects
      → Unlocked id sv.volumes
      → IsSettled id (settle sl F sv)
        × ((settle sl F sv).volumes ≡ sv.volumes)
        × ((settle sl F sv).sessions.sessions ≡ sv.sessions.sessions)
  unfolding settle
  settle-IsSettled sv id kept quiet free =
      let same = settle-volumes sv id quiet free in
      (
        record {
          consistent = quiet-IsConsistent sv.sessions kept;
          quiet = refl;
          unlocked = subst (Unlocked id) (sym same) free;
        },
        same,
        refl,
      )

  -- After a call that drops nothing, whoever holds the volumes.
  pub settle_same :
      (sv : Server sl F)
      → IsConsistent sl F sv.sessions
      → All NoDrop sv.sessions.effects
      → IsConsistent sl F (settle sl F sv).sessions × ((settle sl F sv).volumes ≡ sv.volumes)
  unfolding settle
  settle_same sv kept quiet = (
    quiet-IsConsistent sv.sessions kept,
    elim (Option-cases sv.volumes) [
      | inl off ↦ rw off refl
      | inr (v, there) ↦ rw there (ap some (release_dropped_none sv.sessions.effects v quiet))
    ],
  )

  -- A rollback of a session that holds no volume: it does not panic and leaves the volumes alone.
  pub roll_back-IsSettled :
      (sv : Server sl F) (s : Session) (tenant : Bytes)
      → IsSettled s.id sv
      → (sv' : Server sl F) × (roll_back sl F sv s tenant ≡ some sv')
        × IsSettled s.id sv'
        × (sv'.volumes ≡ sv.volumes)
  unfolding roll_back
  roll_back-IsSettled sv s tenant v =
      let (m, r, done, kept) =
        destroy_session-IsConsistent sl F sv.sessions (ok tt) s.id s.token tenant v.consistent in
      let quiet : All (OnlyDrops s.id) m.effects = subst (QuietResult sl F s.id) done (
        destroy_session-Quiet sl F sv.sessions (ok tt) s.id s.token tenant
          (authed-own sl F sv.sessions s.id s.token tenant v.consistent) (rw v.quiet tt)) in
      let sv1 = record sv { sessions = m } in
      let (settled, same, _) = settle-IsSettled sv1 s.id kept quiet v.unlocked in
      (settle sl F sv1, rw (done, roll_back) refl, settled, same)

  -- The volume of the request, attached for the session.
  abbrev pub Attached :
      Bytes → Disk → Bytes → Bytes → Option Volume.Manager → Option Volume.Manager → Type 0
  Attached id d tenant volume_id before after =
      (v : Volume.Manager) × (v' : Volume.Manager) × (path : Bytes) × (before ≡ some v)
      × (attach v d tenant volume_id id true ≡ (v', inr (path, true)))
      × (after ≡ some v')

  -- What a handler that creates the session leaves: after a refusal the volumes as they were, and
  -- after a success the volume of the request attached for the new session, if there is one.
  abbrev pub Leaves :
      Bytes
      → Disk
      → Bytes
      → Bytes
      → Option Volume.Manager
      → Option Volume.Manager
      → Response Session
      → Type 0
  Leaves id d tenant volume_id before after (refused r) = after ≡ before
  Leaves id d tenant volume_id before after (sent n s) =
      (n ≡ 201)
      × (s.id ≡ id)
      × (((volume_id ≡ []) × (after ≡ before))
          ⊎ ((volume_id ≢ []) × Attached id d tenant volume_id before after))

  -- The handler does not panic, and leaves the sessions consistent and the volumes so.
  abbrev pub Completes :
      Bytes
      → Disk
      → Bytes
      → Bytes
      → Option Volume.Manager
      → Option (Server sl F × Response Session)
      → Type 0
  Completes id d tenant volume_id before none = ⊥
  Completes id d tenant volume_id before (some (sv, r)) =
      IsConsistent sl F sv.sessions × Leaves id d tenant volume_id before sv.volumes r

  pub refuse_after-Completes :
      (id : Bytes) (d : Disk) (sv : Server sl F) (s : Session) (tenant asked volume_id : Bytes)
      (before : Option Volume.Manager) (r : Reply)
      → IsSettled s.id sv
      → sv.volumes ≡ before
      → Completes id d tenant volume_id before (refuse_after sl F (roll_back sl F sv s asked) r)
  refuse_after-Completes id d sv s tenant asked volume_id before r v e =
      let (sv'', done, settled, same) = roll_back-IsSettled sv s asked v in
      rw (done, Completes) (settled.consistent, same ∙ e)
