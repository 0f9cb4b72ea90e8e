-- ===== src/Executor/CapWriter/Laws.antt =====
-- internal/executor/gvisor.go: the capped buffer against the stream that was written to it.
use isobox.Prelude.{
  Bool, Bytes, List, [], ap, append-nil, append_assoc, arith, flatten, flatten-append, length,
  length-append, length-take, ltb, refl, sym, take, take-append_ge, take-take_append, take_all,
  take_none, true, ℕ, ◌++◌, ◌+◌, ◌-◌, ◌<◌, ◌||◌, ◌∙◌, ◌∷◌, ◌≡◌, ◌≤◌,
}
use isobox.Executor.CapWriter.{CapWriter, new, write, forward, pump}

-- What holds of a writer between two writes.
pub record IsValid (w : CapWriter) : Type 0 where
  pub counted : w.n ≡ length w.buf
  pub bounded : w.n ≤ w.limit

write-buf : (w : CapWriter) (p : Bytes) → IsValid w → (write w p).0.buf ≡ take w.limit (w.buf ++ p)
unfolding write
write-buf w p v = rw (take-append_ge w.limit w.buf p (omega arith)) (
    ground (
      arith,
      take_none (w.limit - length w.buf) p,
      take_all (w.limit - length w.buf) p,
      append-nil w.buf,
    ))

write-IsValid : (w : CapWriter) (p : Bytes) → IsValid w → IsValid (write w p).0
unfolding write
write-IsValid w p v = record {
  counted = ground (
    arith,
    length-append w.buf p,
    length-append w.buf (take (w.limit - w.n) p),
    length-take (w.limit - w.n) p,
  );
  bounded = ground arith;
}

write-limit : (w : CapWriter) (p : Bytes) → (write w p).0.limit ≡ w.limit
unfolding write
write-limit w p = ground arith

write-truncated :
    (w : CapWriter) (p : Bytes)
    → IsValid w
    → 0 < length p
    → (write w p).0.truncated ≡ (w.truncated || ltb w.limit (w.n + length p))
unfolding write
write-truncated w p v h = ground arith

-- The read loop keeps the writer valid, and its buffer is the front of what was read.
pump-Reads :
    (sink : Bool) (w : CapWriter) (ps : List Bytes)
    → IsValid w
    → IsValid (pump sink w ps).0
      × ((pump sink w ps).0.limit ≡ w.limit)
      × ((pump sink w ps).0.buf ≡ take w.limit (w.buf ++ flatten ps))
      × ((pump sink w ps).0.truncated
          ≡ (w.truncated || ltb w.limit (length w.buf + length (flatten ps))))
unfolding pump flatten
pump-Reads sink w [] v =
    (v, refl, rw append-nil (sym (take_all w.limit w.buf (omega arith))), ground arith)
pump-Reads sink w ([] ∷ ps) v = pump-Reads sink w ps v
pump-Reads sink w ((c ∷ p) ∷ ps) v =
    let (valid, limit, buf, truncated) =
      pump-Reads sink (write w (c ∷ p)).0 ps (write-IsValid w (c ∷ p) v) in
    (
      valid,
      limit ∙ write-limit w (c ∷ p),
      buf ∙ rw (write-limit, write-buf w (c ∷ p) v, take-take_append, append_assoc),
      truncated
          ∙ ground (
            arith,
            write-limit w (c ∷ p),
            write-truncated w (c ∷ p) v (omega arith),
            ap length (write-buf w (c ∷ p) v),
            length-take w.limit (w.buf ++ c ∷ p),
            length-append w.buf (c ∷ p),
            length-append p (flatten ps),
          ),
    )

forward-buf :
    (w : CapWriter) (p : Bytes)
    → IsValid w
    → w.buf ++ flatten (forward true w p) ≡ (write w p).0.buf
unfolding forward write flatten
forward-buf w p v = ground (
  arith,
  append-nil w.buf,
  append-nil p,
  append-nil (take (w.limit - w.n) p),
  append-nil (take (length p) p),
  take_all (length p) p,
  take_none (w.limit - w.n) p,
)

-- What the live sink received is what the buffer gained.
pump-sent :
    (w : CapWriter) (ps : List Bytes)
    → IsValid w
    → w.buf ++ flatten (pump true w ps).1 ≡ (pump true w ps).0.buf
unfolding pump flatten
pump-sent w [] v = append-nil w.buf
pump-sent w ([] ∷ ps) v = pump-sent w ps v
pump-sent w ((c ∷ p) ∷ ps) v =
    rw (flatten-append, ← append_assoc, forward-buf w (c ∷ p) v)
      (pump-sent (write w (c ∷ p)).0 ps (write-IsValid w (c ∷ p) v))

new-IsValid : (limit : ℕ) → IsValid (new limit)
new-IsValid limit = record { counted = refl; bounded = omega arith }

-- Whatever the chunks in which a stream is read, the buffer of a new writer holds the first
-- `limit` bytes of the stream, the flag tells whether anything was cut off, and a live sink is
-- given exactly the bytes that the buffer holds.
pub pump-new :
    (limit : ℕ) (ps : List Bytes)
    → let (w, sent) = pump true (new limit) ps in
      (w.buf ≡ take limit (flatten ps))
      × (w.truncated ≡ ltb limit (length (flatten ps)))
      × (flatten sent ≡ w.buf)
pump-new limit ps =
    let (_, _, buf, truncated) = pump-Reads true (new limit) ps (new-IsValid limit) in
    (buf, truncated ∙ ground arith, pump-sent (new limit) ps (new-IsValid limit))
