-- ===== src/Executor/Shell/Tests.antt =====
-- A command line with a quote in it, and a name that climbs.
use isobox.Prelude.{[], codes, some, ◌∷◌, ◌≡◌}
use isobox.Executor.Shell.{sh_join}
use isobox.Executor.Shell.Laws.{words, words-sh_join}

words-sh_join_example :
    words 2 (sh_join (codes "echo" ∷ codes "it's; rm" ∷ []))
    ≡ some (codes "echo" ∷ codes "it's; rm" ∷ [])
words-sh_join_example = words-sh_join (codes "echo") (codes "it's; rm" ∷ [])
