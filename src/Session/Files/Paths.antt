-- ===== src/Session/Files/Paths.antt =====
-- internal/session/manager.go: where `safePath` leads.
use isobox.Prelude.{
  All, Bool, Bytes, List, [], append-nil, append_assoc, arith, false, not, refl, subst, true, ◌&&◌,
  ◌++◌, ◌∷◌, ◌≡◌,
}
use isobox.Session.{Session, ok}
use isobox.Session.Files.{safe_path}
use isobox.Paths.Laws.{IsName, join_path-abs, clean_abs, joined-append}
use isobox.Paths.{slash, joined, clean, join_path}
use isobox.Strings.{trim_space, has_prefix, str_eq}
use isobox.Strings.Laws.{has_prefix-append}
use isobox.Strings.Laws.{str_eq_refl}

prefix_at : (p r : Bytes) → has_prefix (p ++ slash ∷ r) (p ++ slash ∷ []) ≡ true
prefix_at p r =
    subst (λ (l : Bytes). has_prefix l (p ++ slash ∷ []) ≡ true) (append_assoc p (slash ∷ []) r)
      (has_prefix-append (p ++ slash ∷ []) r)

and_false : (b : Bool) → (b && false) ≡ false
and_false b = ground arith

-- The containment test of safePath passes for the workspace and for what lies below it.
inside_ok :
    (w : Bytes) (n : Bytes) (ns below : List Bytes)
    → w ≡ slash ∷ joined (n ∷ ns)
    → (not (str_eq (slash ∷ joined (n ∷ ns ++ below)) w)
        && not (has_prefix (slash ∷ joined (n ∷ ns ++ below)) (w ++ slash ∷ [])))
      ≡ false
inside_ok w n ns [] e = rw (e, append-nil, str_eq_refl) refl
inside_ok w n ns (c ∷ cs) e =
    let within : has_prefix (slash ∷ joined (n ∷ ns ++ c ∷ cs)) (w ++ slash ∷ []) ≡ true =
      rw (e, joined-append n ns cs c) (prefix_at (slash ∷ joined (n ∷ ns)) (joined (c ∷ cs))) in
    rw within (and_false (not (str_eq (slash ∷ joined (n ∷ ns ++ c ∷ cs)) w)))

-- A caller's path, whatever it holds, leads to the workspace itself or to names below it, and is
-- never refused, given that the workspace is a cleaned rooted path of at least one name.
pub safe_path-IsInside :
    (s : Session) (rel : Bytes) (n : Bytes) (ns : List Bytes)
    → All IsName (n ∷ ns)
    → s.workspace ≡ slash ∷ joined (n ∷ ns)
    → (below : List Bytes) × All IsName below
      × (safe_path s rel ≡ ok (slash ∷ joined (n ∷ ns ++ below)))
unfolding safe_path
safe_path-IsInside s rel n ns h w =
    let (below, names, cleaned) = clean_abs (trim_space rel) in
    let path : join_path s.workspace (clean (slash ∷ trim_space rel))
        ≡ slash ∷ joined (n ∷ ns ++ below) =
      rw (w, cleaned) (join_path-abs n ns below h names) in
    (below, names, rw (path, inside_ok s.workspace n ns below w) refl)
