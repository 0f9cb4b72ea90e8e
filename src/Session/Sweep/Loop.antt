-- ===== src/Session/Sweep/Loop.antt =====
-- internal/session/manager.go: the first loop of `Sweep`.
use isobox.Prelude.{
  All, Bool, Bool-cases, Bytes, Bytes-discrete, List, [], any, ap, arith, false, inl, inr, lookup,
  lookup-remove_ne, lookup-remove_self, map, none, refl, remove, some, some-inj, subst,
  sum_by-remove, sym, true, ℕ, ◌+◌, ◌∙◌, ◌∷◌, ◌≡◌, ◌≢◌, ◌⊎◌,
}
use isobox.Sched.Laws.{Slots}
use isobox.Session.{Manager, Config, Session}
use isobox.Session.Sweep.{Sized, Pass, must_go, visit, visit_all}
use isobox.Session.Sweep.Sorted.{sizes, Apart}
use isobox.Session.Sweep.Bounds.{usage, Measured, still-Measured, Within, remove-Within}
use isobox.Session.Teardown.Balance.{IsBalanced, drop-IsBalanced}
use isobox.Strings.{str_eq}

-- Each session of the map stands under its own id.
abbrev pub IsKeyed : List (Bytes × Session) → Type 0
IsKeyed = All λ e. e.1.id ≡ e.0

abbrev pub sessions_of : List (Bytes × Session) → List Session
sessions_of = map λ e. e.1

-- The sessions of a list have ids of their own.
abbrev pub Unlike : List Session → Type 0
Unlike [] = Unit {0}
Unlike (s ∷ ss) = All (λ t. t.id ≢ s.id) ss × Unlike ss

-- Some session of the list has the id.
abbrev pub awaits : Bytes → List Session → Bool
awaits q = any λ s. str_eq s.id q

awaits-ne :
    (q : Bytes) (s : Session) (ss : List Session)
    → s.id ≢ q
    → awaits q (s ∷ ss) ≡ true
    → awaits q ss ≡ true
awaits-ne q s ss other h = ground arith

module _ (sl : Slots) (F : Type 0) (du : Bytes → ℕ) (now : ℕ) (c : Config) where
  abbrev pub sum_du : List Session → ℕ
  sum_du [] = 0
  sum_du (s ∷ ss) = du s.workspace + sum_du ss

  -- Between two rounds: `todo` is what the loop has not seen.
  pub record PassOk (p : Pass sl F) (todo : List Session) : Type 0 where
    pub balanced : IsBalanced sl F p.manager
    pub config : p.manager.config ≡ c
    pub waiting : All (λ s. lookup Bytes-discrete s.id p.manager.sessions ≡ some s) todo
    pub measured : All (Measured sl F du p.manager) p.live
    pub unlike : Unlike todo
    pub apart : Apart p.live
    pub across : All (λ s. All (λ l. l.session.id ≢ s.id) p.live) todo
    pub counted : p.total ≡ sizes p.live
    pub used : usage sl F du p.manager.sessions ≡ p.total + sum_du todo
    pub kept :
        (q : Bytes) (s : Session)
        → lookup Bytes-discrete q p.manager.sessions ≡ some s
        → (must_go du now c s ≡ false) ⊎ (awaits q todo ≡ true)

  waiting_still :
      (m m' : Manager sl F) (k : Bytes) (ss : List Session)
      → m'.sessions ≡ remove Bytes-discrete k m.sessions
      → All (λ s. s.id ≢ k) ss
      → All (λ s. lookup Bytes-discrete s.id m.sessions ≡ some s) ss
      → All (λ s. lookup Bytes-discrete s.id m'.sessions ≡ some s) ss
  waiting_still m m' k [] e f h = tt
  waiting_still m m' k (s ∷ ss) e f h = (
    rw (e, lookup-remove_ne Bytes-discrete k s.id m.sessions f.0) h.0,
    waiting_still m m' k ss e f.1 h.1,
  )

  across_more :
      (s : Session) (l : List Sized) (n : ℕ) (ss : List Session)
      → All (λ t. t.id ≢ s.id) ss
      → All (λ t. All (λ k. k.session.id ≢ t.id) l) ss
      → All (λ t. All (λ k. k.session.id ≢ t.id) (record { session = s; size = n } ∷ l)) ss
  across_more s l n [] f h = tt
  across_more s l n (t ∷ ss) f h = ((λ e. f.0 (sym e), h.0), across_more s l n ss f.1 h.1)

  dropped-PassOk :
      (p : Pass sl F) (m' : Manager sl F) (s : Session) (ss : List Session)
      → PassOk p (s ∷ ss)
      → IsBalanced sl F m'
      → m'.sessions ≡ remove Bytes-discrete s.id p.manager.sessions
      → m'.config ≡ p.manager.config
      → PassOk (record p { manager = m' }) ss
  dropped-PassOk p m' s ss v balanced left config = record {
    balanced = balanced;
    config = config ∙ v.config;
    waiting = waiting_still p.manager m' s.id ss left v.unlike.0 v.waiting.1;
    measured = still-Measured sl F du p.manager m' s.id p.live left v.across.0 v.measured;
    unlike = v.unlike.1;
    apart = v.apart;
    across = v.across.1;
    counted = v.counted;
    used = omega (
      arith,
      v.used,
      ap (usage sl F du) left,
      sum_by-remove Bytes-discrete (λ (t : Session). du t.workspace) s.id s p.manager.sessions
          v.balanced.distinct v.waiting.0,
    );
    kept = λ q t e.
        kept_after q t
          (subst (λ (k : List (Bytes × Session)). lookup Bytes-discrete q k ≡ some t) left e);
  }
    where
      kept_after :
          (q : Bytes) (t : Session)
          → lookup Bytes-discrete q (remove Bytes-discrete s.id p.manager.sessions) ≡ some t
          → (must_go du now c t ≡ false) ⊎ (awaits q ss ≡ true)
      kept_after q t e =
          let there = remove-Within s.id p.manager.sessions q t e in
          elim (Bytes-discrete s.id q) [
            | yes same ↦
                let gone : lookup Bytes-discrete q (remove Bytes-discrete s.id p.manager.sessions)
                    ≡ none =
                  rw (← same) (lookup-remove_self Bytes-discrete s.id p.manager.sessions) in
                cc
            | no other ↦ elim (v.kept q t there) [
              | inl stays ↦ inl stays
              | inr later ↦ inr (awaits-ne q s ss other later)
            ]
          ]

  kept-PassOk :
      (p : Pass sl F) (s : Session) (ss : List Session)
      → PassOk p (s ∷ ss)
      → must_go du now c s ≡ false
      → PassOk
          (record p {
            live = record { session = s; size = du s.workspace } ∷ p.live;
            total = p.total + du s.workspace;
          })
          ss
  kept-PassOk p s ss v stays = record {
    balanced = v.balanced;
    config = v.config;
    waiting = v.waiting.1;
    measured = ((v.waiting.0, refl), v.measured);
    unlike = v.unlike.1;
    apart = (v.across.0, v.apart);
    across = across_more s p.live (du s.workspace) ss v.unlike.0 v.across.1;
    counted = omega (arith, v.counted);
    used = omega (arith, v.used);
    kept = kept_now;
  }
    where
      kept_now :
          (q : Bytes) (t : Session)
          → lookup Bytes-discrete q p.manager.sessions ≡ some t
          → (must_go du now c t ≡ false) ⊎ (awaits q ss ≡ true)
      kept_now q t e = elim (v.kept q t e) [
        | inl stays' ↦ inl stays'
        | inr later ↦ elim (Bytes-discrete s.id q) [
          | yes same ↦
              let here : lookup Bytes-discrete q p.manager.sessions ≡ some s =
                rw (← same) v.waiting.0 in
              let one : some s ≡ some t = sym here ∙ e in
              inl (subst (λ (u : Session). must_go du now c u ≡ false) (some-inj s t one) stays)
          | no other ↦ inr (awaits-ne q s ss other later)
        ]
      ]

  -- The first loop ends without a panic, with its list of the sessions that stay.
  pub visit_all-PassOk :
      (p : Pass sl F) (todo : List Session)
      → PassOk p todo
      → (p' : Pass sl F) × (visit_all sl F du now p todo ≡ some p')
        × PassOk p' []
        × Within p'.manager.sessions p.manager.sessions
  unfolding visit_all visit
  visit_all-PassOk p [] v = (p, refl, v, λ q s e. e)
  visit_all-PassOk p (s ∷ ss) v = elim (Bool-cases (must_go du now p.manager.config s)) [
    | inl goes ↦
        let (m', dropped, balanced, left, config) =
          drop-IsBalanced sl F p.manager s v.balanced v.waiting.0 in
        let (p', visited, ok', within) =
          visit_all-PassOk (record p { manager = m' }) ss
            (dropped-PassOk p m' s ss v balanced left config) in
        (
          p',
          rw (goes, visit_all, dropped) visited,
          ok',
          λ q t e. remove-Within s.id p.manager.sessions q t (
              subst (λ (k : List (Bytes × Session)). lookup Bytes-discrete q k ≡ some t) left
                (within q t e)),
        )
    | inr stays ↦
        let (p', visited, ok', within) =
          visit_all-PassOk
            (record p {
              live = record { session = s; size = du s.workspace } ∷ p.live;
              total = p.total + du s.workspace;
            })
            ss
            (kept-PassOk p s ss v
              (subst (λ (k : Config). must_go du now k s ≡ false) v.config stays)) in
        (p', rw (stays, visit_all) visited, ok', within)
  ]
