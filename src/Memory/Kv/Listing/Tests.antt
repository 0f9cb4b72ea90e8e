-- ===== src/Memory/Kv/Listing/Tests.antt =====
-- A bucket of three entries, listed one by one.
use isobox.Prelude.{Bool, Bytes, List, [], codes, length, ltb, none, refl, some, suc, ◌∷◌, ◌≡◌}
use isobox.Memory.Kv.Listing.{bytes_lt}
use isobox.Memory.Kv.Listing.Order.{Ascending}
use isobox.Memory.Kv.Listing.Walk.{wanted}
use isobox.Memory.Kv.Listing.Laws.{follow, follow-wanted}

abbrev entries : List (Bytes × Bytes)
entries =
    (codes "a1", codes "x")
    ∷ (codes "a2", codes "gone")
    ∷ (codes "a3", codes "y")
    ∷ (codes "b", [])
    ∷ []

-- The short values are live.
abbrev is_short : Bytes → Bool
is_short v = ltb (length v) 2

entries-Ascending : Ascending entries
unfolding bytes_lt
entries-Ascending = ((refl, (refl, (refl, tt))), ((refl, (refl, tt)), ((refl, tt), (tt, tt))))

follow-wanted_example :
    follow is_short (codes "a") (suc (length (wanted is_short (codes "a") entries))) 1 none entries
    ≡ some (wanted is_short (codes "a") entries)
follow-wanted_example = follow-wanted is_short (codes "a") 1 entries entries-Ascending

-- The keys that are listed.
wanted_run : wanted is_short (codes "a") entries ≡ codes "a1" ∷ codes "a3" ∷ []
unfolding wanted
wanted_run = refl
