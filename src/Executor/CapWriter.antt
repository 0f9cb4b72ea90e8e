-- ===== src/Executor/CapWriter.antt =====
-- internal/executor/gvisor.go: `capWriter`, the buffer that caps a sandbox's output, and `pump`,
-- which fills it and feeds the live sink. The sizes are int64 in the source; the limit is positive
-- (Execute replaces a limit that is not), so the numbers here are natural.
pub mod Laws
mod Tests
use isobox.Prelude.{
  Bool, Bytes, List, [], false, if◌then◌else◌, is_empty, leb, length, ltb, min, take, true, ℕ, ◌++◌,
  ◌+◌, ◌-◌, ◌∷◌,
}

pub record CapWriter : Type 0 where
  pub buf : Bytes
  pub limit : ℕ
  pub n : ℕ
  pub truncated : Bool

-- `&capWriter{limit: limit}`
abbrev pub new : ℕ → CapWriter
new limit = record { buf = []; limit = limit; n = 0; truncated = false }

-- `Write`: the new writer and the count that it reports.
pub write : CapWriter → Bytes → CapWriter × ℕ
write w p =
    let room = w.limit - w.n in
    if leb w.limit w.n
    then (record w { truncated = true }, length p)
    else if ltb room (length p)
    then (record w { buf = w.buf ++ take room p; n = w.limit; truncated = true }, length p)
    else (record w { buf = w.buf ++ p; n = w.n + length p }, length p)

-- What `pump` hands to a live sink for one chunk, before the chunk is written.
pub forward : Bool → CapWriter → Bytes → List Bytes
forward sink w p =
    let room = w.limit - w.n in
    if sink then (if ltb 0 room then take (min (length p) room) p ∷ [] else []) else []

-- The read loop of `pump`: the chunks that the reads return until one reports an error, the
-- writer at the end, and the chunks that the sink was given.
pub pump : Bool → CapWriter → List Bytes → CapWriter × List Bytes
pump sink w [] = (w, [])
pump sink w (p ∷ ps) =
    let (w', sent) = pump sink (if is_empty p then w else (write w p).0) ps in
    (w', (if is_empty p then [] else forward sink w p) ++ sent)
