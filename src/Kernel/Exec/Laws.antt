-- ===== src/Kernel/Exec/Laws.antt =====
-- internal/session/kernel.go: the frames and the buffers of a step's read loop.
use isobox.Prelude.{
  Bool, Bool-cases, Bytes, List, Option-cases, [], arith, codes, false, inl, inr, length,
  length-append, length-take, none, refl, select, some, take, ℕ, ◌++◌, ◌-◌, ◌∷◌, ◌≡◌, ◌≤◌,
}
use isobox.Kernel.Exec.{
  new_progress, new_buf, Line, Progress, read_frames, stream_step, CapBuf, Frame, clip, write,
}
use isobox.Strings.{str_eq}

-- A line that carries a frame of the step.
abbrev pub is_own : Bytes → Line → Bool
is_own step l = elim l.frame [ none ↦ false | some f ↦ str_eq f.id step ]

-- Whatever the code in the container writes between the frames of the step (noise, stale frames,
-- forged results under another id), the step ends as it would without it: with the same buffers,
-- the same result and the same verdict on the kernel.
pub read_frames-select :
    (step : Bytes) (p : Progress) (ls : List Line) (timed_out : Bool) (elapsed : ℕ)
    → read_frames step p ls timed_out elapsed
      ≡ read_frames step p (select (is_own step) ls) timed_out elapsed
unfolding read_frames
read_frames-select step p [] timed_out elapsed = refl
read_frames-select step p (l ∷ ls) timed_out elapsed = elim (Option-cases l.frame) [
  | inl noise ↦ rw (noise, read_frames) (read_frames-select step p ls timed_out elapsed)
  | inr (f, there) ↦ elim (Bool-cases (str_eq f.id step)) [
    | inr other ↦ rw (there, other, read_frames) (read_frames-select step p ls timed_out elapsed)
    | inl own ↦
        let later = read_frames-select step (stream_step p f) ls timed_out elapsed in
        let now = read_frames-select step p ls timed_out elapsed in
        ground (arith, there, own, later, now)
  ]
]

-- A buffer that counts its bytes, is within its limit, and has had no more sent than it holds.
pub record IsCapped (limit : ℕ) (w : CapBuf) (sent : Bytes) : Type 0 where
  pub same_limit : w.limit ≡ limit
  pub counted : w.n ≡ length w.b
  pub bounded : w.n ≤ limit
  pub sent_less : length sent ≤ w.n

write-IsCapped :
    (limit : ℕ) (w : CapBuf) (sent p : Bytes)
    → IsCapped limit w sent
    → IsCapped limit (write w p) (sent ++ clip p (write w p))
unfolding write clip
write-IsCapped limit w sent p v =
    let e = v.same_limit in
    let c = v.counted in
    let u = v.bounded in
    let s = v.sent_less in
    let taken = length-take (w.limit - w.n) p in
    let joined = length-append w.b p in
    let joined' = length-append w.b (take (w.limit - w.n) p) in
    let out = length-append sent p in
    let none_sent = length-append sent [] in
    record {
      same_limit = ground arith;
      counted = ground arith;
      bounded = ground arith;
      sent_less = ground arith;
    }

pub IsWithin : ℕ → Progress → Type 0
IsWithin limit p = IsCapped limit p.out p.sent_out × IsCapped limit p.errors p.sent_errors

stream_step-IsWithin :
    (limit : ℕ) (p : Progress) (f : Frame) → IsWithin limit p → IsWithin limit (stream_step p f)
unfolding stream_step IsWithin
stream_step-IsWithin limit p f (out, errors) =
    elim (Bool-cases (str_eq f.stream (codes "stderr"))) [
      | inl e ↦
          rw (stream_step, e) (out, write-IsCapped limit p.errors p.sent_errors f.payload errors)
      | inr e ↦ rw (stream_step, e) (write-IsCapped limit p.out p.sent_out f.payload out, errors)
    ]

read_frames-kept :
    (limit : ℕ) (step : Bytes) (p : Progress) (ls : List Line) (timed_out : Bool) (elapsed : ℕ)
    → IsWithin limit p
    → IsWithin limit (read_frames step p ls timed_out elapsed).0
unfolding read_frames
read_frames-kept limit step p [] timed_out elapsed v = v
read_frames-kept limit step p (l ∷ ls) timed_out elapsed v =
    let now = read_frames-kept limit step p ls timed_out elapsed v in
    let later : (f : Frame)
        → IsWithin limit (read_frames step (stream_step p f) ls timed_out elapsed).0 =
      λ f.
        read_frames-kept limit step (stream_step p f) ls timed_out elapsed
          (stream_step-IsWithin limit p f v) in
    elim (Option-cases l.frame) [
      | inl noise ↦ rw (noise, read_frames) now
      | inr (f, there) ↦ elim (Bool-cases (str_eq f.id step)) [
        | inr other ↦ rw (there, other, read_frames) now
        | inl own ↦ elim (Bool-cases (str_eq f.kind (codes "stream"))) [
          | inl streams ↦ rw (there, own, streams, read_frames) (later f)
          | inr quiet ↦ elim (Bool-cases (str_eq f.kind (codes "result"))) [
            | inl ends ↦ rw (there, own, quiet, ends, read_frames) v
            | inr goes_on ↦ elim (Bool-cases (str_eq f.kind (codes "fatal"))) [
              | inl dies ↦ rw (there, own, quiet, goes_on, dies, read_frames) v
              | inr ignored ↦ rw (there, own, quiet, goes_on, ignored, read_frames) now
            ]
          ]
        ]
      ]
    ]

-- However much a step writes, and whatever else its container writes, each of its two buffers ends
-- with no more bytes than the limit, and the live sink was given no more than the buffer holds.
pub read_frames-IsWithin :
    (limit : ℕ) (step : Bytes) (ls : List Line) (timed_out : Bool) (elapsed : ℕ)
    → IsWithin limit (read_frames step (new_progress limit) ls timed_out elapsed).0
unfolding IsWithin
read_frames-IsWithin limit step ls timed_out elapsed =
    let empty : IsCapped limit (new_buf limit) [] = record {
      same_limit = refl;
      counted = omega arith;
      bounded = omega arith;
      sent_less = omega arith;
    } in
    read_frames-kept limit step (new_progress limit) ls timed_out elapsed (empty, empty)
