-- ===== src/Executor/Shell/Laws.antt =====
-- internal/executor/gvisor.go: the quoting against the way a POSIX shell reads a word.
use isobox.Prelude.{
  ==_iff, Bool-cases, Bytes, List, Option, [], ap, append-nil, append_assoc, if◌then◌else◌, inl,
  inr, length, none, refl, some, suc, zero, ℕ, ◌++◌, ◌==◌, ◌∷◌, ◌≡◌,
}
use isobox.Executor.Shell.{quote, backslash, escape_quotes, space, sh_join, sh_quote}
use isobox.Strings.{join}

-- How a POSIX shell reads: outside quotes, inside single quotes, after a backslash.
pub data Mode : Type 0 where
  plain quoted escaped : Mode

abbrev before : ℕ → Option (Bytes × Bytes) → Option (Bytes × Bytes)
before c none = none
before c (some (w, r)) = some (c ∷ w, r)

-- One word of the shell and the text behind it; none where a quote is left open, or where the
-- text has an unquoted byte that is neither a quote, a backslash nor the space that ends the word
-- (such a byte may be an operator, an expansion or a second command).
pub word : Mode → Bytes → Option (Bytes × Bytes)
word plain [] = some ([], [])
word plain (c ∷ s) =
    let open_quote = word quoted s in
    let escape = word escaped s in
    if c == quote
    then open_quote
    else if c == backslash
    then escape
    else if c == space
    then some ([], c ∷ s)
    else none
word quoted [] = none
word quoted (c ∷ s) =
    let close = word plain s in
    let rest = word quoted s in if c == quote then close else before c rest
word escaped [] = none
word escaped (c ∷ s) = before c (word plain s)

abbrev before_words : Bytes → Option (List Bytes) → Option (List Bytes)
before_words w none = none
before_words w (some ws) = some (w ∷ ws)

-- The words of a command line, on fuel; none also where the fuel is used up.
pub words : ℕ → Bytes → Option (List Bytes)
words zero s = none
words (suc n) s = elim (word plain s) [
  | none ↦ none
  | some (w, []) ↦ some (w ∷ [])
  | some (w, c ∷ r) ↦ before_words w (words n r)
]

abbrev pub prepend : Bytes → Option (Bytes × Bytes) → Option (Bytes × Bytes)
prepend [] o = o
prepend (c ∷ s) o = before c (prepend s o)

word-escape_quotes :
    (s r : Bytes) → word quoted (escape_quotes s ++ quote ∷ r) ≡ prepend s (word plain r)
unfolding word escape_quotes
word-escape_quotes [] r = refl
word-escape_quotes (c ∷ s) r = elim (Bool-cases (c == quote)) [
  | inl e ↦ rw (e, (==_iff c quote).0 e) (ap (before quote) (word-escape_quotes s r))
  | inr e ↦ rw (e, e) (ap (before c) (word-escape_quotes s r))
]

sh_quote-append : (s r : Bytes) → sh_quote s ++ r ≡ quote ∷ escape_quotes s ++ quote ∷ r
unfolding sh_quote
sh_quote-append s r = rw append_assoc

word-quote : (s : Bytes) → word plain (quote ∷ s) ≡ word quoted s
unfolding word
word-quote s = refl

word-sh_quote : (s r : Bytes) → word plain (sh_quote s ++ r) ≡ prepend s (word plain r)
word-sh_quote s r = rw (sh_quote-append, word-quote) (word-escape_quotes s r)

prepend-some : (s w r : Bytes) → prepend s (some (w, r)) ≡ some (s ++ w, r)
prepend-some [] w r = refl
prepend-some (c ∷ s) w r = rw (prepend-some s w r)

word-nil : word plain [] ≡ some ([], [])
unfolding word
word-nil = refl

word-space : (s : Bytes) → word plain (space ∷ s) ≡ some ([], space ∷ s)
unfolding word
word-space s = refl

-- A quoted argument that ends the line, or that a space follows, is read back as one word.
word-sh_quote_end : (s : Bytes) → word plain (sh_quote s) ≡ some (s, [])
word-sh_quote_end s =
    rw (← append-nil (sh_quote s), word-sh_quote s [], word-nil, prepend-some s [] [], append-nil)

word-sh_quote-space : (s r : Bytes) → word plain (sh_quote s ++ space ∷ r) ≡ some (s, space ∷ r)
word-sh_quote-space s r =
    rw (word-sh_quote s (space ∷ r), word-space, prepend-some s [] (space ∷ r), append-nil)

sh_join-one : (p : Bytes) → sh_join (p ∷ []) ≡ sh_quote p
unfolding sh_join join
sh_join-one p = refl

sh_join-cons :
    (p q : Bytes) (ps : List Bytes) → sh_join (p ∷ q ∷ ps) ≡ sh_quote p ++ space ∷ sh_join (q ∷ ps)
unfolding sh_join join
sh_join-cons p q ps = refl

-- A shell that reads a command line of shJoin finds exactly the given arguments, whatever bytes
-- they hold: none is split, merged, expanded or read as an operator.
pub words-sh_join :
    (p : Bytes) (ps : List Bytes) → words (length (p ∷ ps)) (sh_join (p ∷ ps)) ≡ some (p ∷ ps)
unfolding words
words-sh_join p [] = rw (sh_join-one, words, word-sh_quote_end p)
words-sh_join p (q ∷ ps) =
    rw (sh_join-cons p q ps, words, word-sh_quote-space p (sh_join (q ∷ ps)))
      (ap (before_words p) (words-sh_join q ps))
