-- ===== src/Nanopb/OStream/Safe.antt =====
-- What every encoding function keeps on a stream over a buffer: nothing is written outside the
-- buffer, what was written stays, and the first error message stays.
use logoguess.Common.{
  ℕ, zero, suc, ◌+◌, ◌-◌, ◌^◌, ◌≤◌, ◌<◌, ◌≡◌, refl, sym, ap, ◌∙◌, arith, leb, le→leb, leb→le,
}
use logoguess.Common.{
  List, [], ◌++◌, length, take, length-take, length-append, append-nil, append_assoc, Option, some,
  none, if◌then◌else◌, Bool, true, false, Bool-cases, inl, inr,
}
use logoguess.Nanopb.Errors.{PbError, stream_full}
use logoguess.Nanopb.IStream.{first_error}
use logoguess.Nanopb.IStream.Safe.{KeepsError, KeepsError-refl, KeepsError-trans}
use logoguess.Nanopb.OStream.{
  OCallback, sizing, buf_write, custom, OStream, Emitted, sent, failed, Encoder, and_then,
  return_error, pb_write, pb_ostream_from_buffer,
}

-- A stream over a buffer: the buffer has room for all that `max_size` still allows.
pub record IsBuffer (s : OStream) : Type 0 where
  pub to_buffer : s.callback ≡ buf_write
  pub within : s.bytes_written ≤ s.max_size
  pub covered : s.max_size ≤ s.bytes_written + s.room
  pub counts : s.max_size < 2 ^ 64

abbrev stream : OCallback → List ℕ → ℕ → ℕ → ℕ → Option PbError → OStream
stream c state room max written e = record {
  callback = c;
  state = state;
  room = room;
  max_size = max;
  bytes_written = written;
  errmsg = e;
}

-- The stream over a buffer after `count` bytes of `buf`.
abbrev pub wrote : List ℕ → ℕ → OStream → OStream
wrote buf count s = record s {
  state = s.state ++ take count buf;
  room = s.room - count;
  bytes_written = s.bytes_written + count;
}

pb_write_lem_at :
    (buf : List ℕ) (count : ℕ) (c : OCallback) (state : List ℕ) (room max written : ℕ)
    (e : Option PbError)
    → let s = stream c state room max written e in
      count ≤ length buf
      → count < 2 ^ 64
      → IsBuffer s
      → pb_write buf count s ≡ (
          if leb (written + count) max
          then sent (wrote buf count s)
          else return_error stream_full s)
unfolding pb_write
pb_write_lem_at buf count sizing state room max written e hl hc h = cc (h.to_buffer)
pb_write_lem_at buf count (custom f) state room max written e hl hc h = cc (h.to_buffer)
pb_write_lem_at buf zero buf_write state room max written e hl hc h =
    ground (arith, append-nil state, h.within, h.counts)
pb_write_lem_at buf (suc count) buf_write state room max written e hl hc h =
    ground (arith, h.within, h.counts, h.covered, le→leb (suc count) (length buf) hl)

-- pb_write of `count` bytes of `buf` to a stream over a buffer: if `max_size` allows them it stores
-- them behind the output and counts them, else it stores nothing and fails with "stream full".
pub pb_write_lem :
    (buf : List ℕ) (count : ℕ) (s : OStream)
    → count ≤ length buf
    → count < 2 ^ 64
    → IsBuffer s
    → pb_write buf count s ≡ (
        if leb (s.bytes_written + count) s.max_size
        then sent (wrote buf count s)
        else return_error stream_full s)
pb_write_lem buf count s =
    pb_write_lem_at buf count s.callback s.state s.room s.max_size s.bytes_written s.errmsg

pub record Extends (s t : OStream) : Type 0 where
  pub is_buffer : IsBuffer t
  pub same_limit : t.max_size ≡ s.max_size
  pub added : List ℕ
  pub appended : t.state ≡ s.state ++ added
  pub counted : t.bytes_written ≡ s.bytes_written + length added
  pub room_used : t.room + length added ≡ s.room
  pub error_kept : KeepsError s.errmsg t.errmsg

-- The run from `s` does not fault, and it only appends to the output.
pub data Sends (s : OStream) : Emitted → Type 0 where
  sends : {t : OStream} → Extends s t → Sends s (sent t)
  stops : {t : OStream} → Extends s t → Sends s (failed t)

Extends-refl : {s : OStream} → IsBuffer s → Extends s s
Extends-refl {s} h = record {
  is_buffer = h;
  same_limit = refl;
  added = [];
  appended = sym (append-nil s.state);
  counted = omega arith;
  room_used = omega arith;
  error_kept = KeepsError-refl s.errmsg;
}

Extends-trans : {s t u : OStream} → Extends s t → Extends t u → Extends s u
Extends-trans {s} {t} {u} p q = record {
  is_buffer = q.is_buffer;
  same_limit = q.same_limit ∙ p.same_limit;
  added = p.added ++ q.added;
  appended =
      q.appended ∙ ap (λ xs. xs ++ q.added) p.appended ∙ append_assoc s.state p.added q.added;
  counted = omega (arith, p.counted, q.counted, length-append p.added q.added);
  room_used = omega (arith, p.room_used, q.room_used, length-append p.added q.added);
  error_kept = KeepsError-trans s.errmsg t.errmsg u.errmsg p.error_kept q.error_kept;
}

KeepsError-first_error : (m : Option PbError) (e : PbError) → KeepsError m (first_error m e)
KeepsError-first_error none e = tt
KeepsError-first_error (some d) e = refl

pub Sends-error : {s : OStream} (e : PbError) → IsBuffer s → Sends s (return_error e s)
Sends-error {s} e h = stops (record {
  is_buffer = record {
    to_buffer = h.to_buffer;
    within = h.within;
    covered = h.covered;
    counts = h.counts;
  };
  same_limit = refl;
  added = [];
  appended = sym (append-nil s.state);
  counted = omega arith;
  room_used = omega arith;
  error_kept = KeepsError-first_error s.errmsg e;
})

Sends-from : {s t : OStream} {r : Emitted} → Extends s t → Sends t r → Sends s r
Sends-from a (sends b) = sends (Extends-trans a b)
Sends-from a (stops b) = stops (Extends-trans a b)

pub Sends-then :
    {s : OStream} {r : Emitted} (k : Encoder)
    → Sends s r
    → ((t : OStream) → IsBuffer t → Sends t (k t))
    → Sends s (and_then r k)
Sends-then k (sends {t} a) f = Sends-from a (f t a.is_buffer)
Sends-then k (stops a) f = stops a

pub Sends-choose :
    (b : Bool) {s : OStream} (m k : Encoder)
    → (b ≡ true → Sends s (m s))
    → (b ≡ false → Sends s (k s))
    → Sends s ((if b then m else k) s)
Sends-choose true m k p q = p refl
Sends-choose false m k p q = q refl

wrote-Extends :
    (buf : List ℕ) (count : ℕ) (s : OStream)
    → count ≤ length buf
    → s.bytes_written + count ≤ s.max_size
    → IsBuffer s
    → Extends s (wrote buf count s)
wrote-Extends buf count s hl fits h = record {
  is_buffer = record {
    to_buffer = h.to_buffer;
    within = fits;
    covered = omega (arith, h.covered);
    counts = h.counts;
  };
  same_limit = refl;
  added = take count buf;
  appended = refl;
  counted = omega (arith, length-take count buf hl);
  room_used = omega (arith, length-take count buf hl, h.covered);
  error_kept = KeepsError-refl s.errmsg;
}

pub pb_write-Sends :
    (buf : List ℕ) (count : ℕ) (s : OStream)
    → count ≤ length buf
    → count < 2 ^ 64
    → IsBuffer s
    → Sends s (pb_write buf count s)
pb_write-Sends buf count s hl hc h = elim (Bool-cases (leb (s.bytes_written + count) s.max_size)) [
  | inl fits ↦
      rw (pb_write_lem buf count s hl hc h, fits)
        (sends (wrote-Extends buf count s hl (leb→le (s.bytes_written + count) s.max_size fits) h))
  | inr full ↦ rw (pb_write_lem buf count s hl hc h, full) (Sends-error stream_full h)
]

pb_ostream_from_buffer-IsBuffer :
    (bufsize : ℕ) → bufsize < 2 ^ 64 → IsBuffer (pb_ostream_from_buffer bufsize)
unfolding pb_ostream_from_buffer
pb_ostream_from_buffer-IsBuffer bufsize h = record {
  to_buffer = refl;
  within = omega arith;
  covered = omega arith;
  counts = h;
}
