-- ===== src/Executor/Shell.antt =====
-- internal/executor: the helpers that turn a caller's names and a registry's command lines into
-- what reaches a shell or a file system (sanitizeName, shQuote, shJoin of gvisor.go,
-- rewriteBoxPaths of warmpool.go, decodeFile of gvisor.go).
pub mod Laws
pub mod Names
mod Tests
use isobox.Prelude.{
  Bytes, List, Option, [], codes, if◌then◌else◌, is_empty, map, none, some, ℕ, ◌++◌, ◌==◌, ◌||◌,
  ◌∷◌,
}
use isobox.Strings.{str_eq, contains, has_prefix, join, to_lower, trim_prefix, trim_space}
use isobox.Paths.{base}
use isobox.Executor.{File}

abbrev pub quote : ℕ
quote = 39

abbrev pub backslash : ℕ
backslash = 92

abbrev pub space : ℕ
space = 32

-- `strings.ReplaceAll(s, "'", `'\''`)`
unfoldable pub escape_quotes : Bytes → Bytes
escape_quotes [] = []
escape_quotes (c ∷ s) =
    let rest = escape_quotes s in
    if c == quote then quote ∷ backslash ∷ quote ∷ quote ∷ rest else c ∷ rest

-- `shQuote`
unfoldable pub sh_quote : Bytes → Bytes
unfolding escape_quotes
sh_quote s = quote ∷ escape_quotes s ++ quote ∷ []

-- `shJoin`
unfoldable pub sh_join : List Bytes → Bytes
unfolding sh_quote
sh_join parts = join (space ∷ []) (map sh_quote parts)

-- `sanitizeName`
unfoldable pub sanitize_name : Bytes → Bytes
sanitize_name name =
    let trimmed = trim_space name in
    let b = base trimmed in
    if is_empty trimmed
    then []
    else if str_eq b (codes ".") || str_eq b (codes "..") || (contains b 47 || contains b backslash)
    then []
    else b

-- One element of the loop of `rewriteBoxPaths`.
unfoldable pub rewrite_box_path : Bytes → Bytes
rewrite_box_path p =
    if has_prefix p (codes "/box/")
    then codes "/tmp/box/" ++ trim_prefix p (codes "/box/")
    else if str_eq p (codes "/box")
    then codes "/tmp/box"
    else p

-- `rewriteBoxPaths`
unfoldable pub rewrite_box_paths : List Bytes → List Bytes
unfolding rewrite_box_path
rewrite_box_paths = map rewrite_box_path

-- `decodeFile`; `base64` and `hex` are the decoders of Go's encoding packages, and the result is
-- none where the function returns an error.
unfoldable pub decode_file : (base64 hex : Bytes → Option Bytes) → File → Option Bytes
decode_file base64 hex f =
    let encoding = to_lower f.encoding in
    if is_empty encoding || str_eq encoding (codes "utf8") || str_eq encoding (codes "utf-8")
    then some f.content
    else if str_eq encoding (codes "base64")
    then base64 f.content
    else if str_eq encoding (codes "hex")
    then hex f.content
    else none
