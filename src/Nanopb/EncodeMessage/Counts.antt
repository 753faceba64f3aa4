-- ===== src/Nanopb/EncodeMessage/Counts.antt =====
-- A sizing stream counts what another stream is written.

pub mod Arrays
pub mod Message
pub mod Sizes
pub mod Submessage
pub mod Values
use mathlib.Core.Path.{subst}
use logoguess.Common.{
  ℕ, ◌<◌, zero, suc, ◌+◌, ◌*◌, ◌%◌, ◌^◌, ◌≡◌, refl, sym, ap, ◌∙◌, arith, ltb, leb, if◌then◌else◌,
  not, Bool, true, false, Option, none, some, List, ◌&&◌, ◌||◌, Bool-cases, inl, inr, length, take,
  [],
}
use logoguess.Nanopb.Errors.{PbError, stream_full}
use logoguess.Nanopb.OStream.{
  OCallback, sizing, buf_write, custom, OStream, Emitted, Encoder, sent, failed, fault, and_then,
  ◌>>◌, has_callback, return_error, pb_write, pb_ostream_sizing, buf_write_call, call_back,
  custom_reply, written_after, count_up,
}
use logoguess.Nanopb.EncodeMessage.Values.{loaded}

-- From `s` to `t` as many bytes were counted as from `z` to `y`.
abbrev SameCount : OStream → OStream → OStream → OStream → Type 0
SameCount s t z y =
    (y.bytes_written + s.bytes_written) % 2 ^ 64 ≡ (z.bytes_written + t.bytes_written) % 2 ^ 64

-- The run on the sizing stream `z` returns true, and counts what the run from `s` to `t` did.
pub record Measures (s t z : OStream) (r : Emitted) : Type 0 where
  pub measured : OStream
  pub returns : r ≡ sent measured
  pub still_sizing : has_callback measured.callback ≡ false
  pub still_writing : has_callback t.callback ≡ true
  pub same_count : SameCount s t z measured
  pub in_range : z.bytes_written < 2 ^ 64 → measured.bytes_written < 2 ^ 64
  pub writing_in_range : s.bytes_written < 2 ^ 64 → t.bytes_written < 2 ^ 64

-- If `m` returns true on a stream with a callback, it returns true on a sizing stream, which counts
-- the same number of bytes.
pub record Counts (m : Encoder) : Type 0 where
  pub on_sizing :
      (s t z : OStream)
      → has_callback s.callback ≡ true
      → has_callback z.callback ≡ false
      → m s ≡ sent t
      → Measures s t z (m z)

pub Counts-sent : Counts sent
Counts-sent = record {
  on_sizing = λ s t z hs hz e.
      let e' : s ≡ t = sent_injective e in
      record {
        measured = z;
        returns = refl;
        still_sizing = hz;
        still_writing = subst (λ (r : OStream). has_callback r.callback ≡ true) e' hs;
        same_count = ap (λ (r : OStream). (z.bytes_written + r.bytes_written) % 2 ^ 64) e';
        in_range = λ h. h;
        writing_in_range = λ h. subst (λ (r : OStream). r.bytes_written < 2 ^ 64) e' h;
      };
}
  where
    sent_injective : {a b : OStream} → sent a ≡ sent b → a ≡ b
    sent_injective e = cc e

pub Counts-fault : Counts (λ s. fault)
Counts-fault = record { on_sizing = λ s t z hs hz e. absurd (no e) }
  where
    no : {t : OStream} → fault ≡ sent t → ⊥
    no e = cc e

pub Counts-error : (e : PbError) → Counts (return_error e)
Counts-error d = record { on_sizing = λ s t z hs hz e. cc e }

pub Counts-loaded :
    {A : Type 0} (o : Option A) {k : A → Encoder} → ((a : A) → Counts (k a)) → Counts (loaded o k)
Counts-loaded none h = Counts-fault
Counts-loaded (some a) h = h a

pub Counts-if : (b : Bool) {m k : Encoder} → Counts m → Counts k → Counts (if b then m else k)
Counts-if true hm hk = hm
Counts-if false hm hk = hk

pub Counts->> : {m k : Encoder} → Counts m → Counts k → Counts (m >> k)
Counts->> {m} {k} hm hk = record { on_sizing = λ s t z hs hz e. run s t z hs hz (m s) refl e }
  where
    run :
        (s t z : OStream)
        → has_callback s.callback ≡ true
        → has_callback z.callback ≡ false
        → (r : Emitted) → m s ≡ r
        → and_then r k ≡ sent t
        → Measures s t z (and_then (m z) k)
    run s t z hs hz (failed u) at e = cc e
    run s t z hs hz fault at e = cc e
    run s t z hs hz (sent u) at e =
        let first = hm.on_sizing s u z hs hz at in
        let second = hk.on_sizing u t first.measured first.still_writing first.still_sizing e in
        rw first.returns (record {
          measured = second.measured;
          returns = second.returns;
          still_sizing = second.still_sizing;
          still_writing = second.still_writing;
          same_count = omega (arith, first.same_count, second.same_count);
          in_range = λ h. second.in_range (first.in_range h);
          writing_in_range = λ h. second.writing_in_range (first.writing_in_range h);
        })

-- What a write on a stream with a callback does to the count.
pub record Wrote (count : ℕ) (s t : OStream) : Type 0 where
  pub same_callback : t.callback ≡ s.callback
  pub counted_up : t.bytes_written ≡ (s.bytes_written + count) % 2 ^ 64

Wrote-custom :
    (count : ℕ) (reply : Bool × List ℕ) (s t : OStream)
    → and_then (custom_reply reply s) (λ s'. sent (count_up count s')) ≡ sent t
    → Wrote count s t
Wrote-custom count (false, next) s t e = cc e
Wrote-custom count (true, next) s t e = record { same_callback = cc e; counted_up = cc e }

Wrote-buffer :
    (buf : List ℕ) (count : ℕ) (s t : OStream)
    → and_then (buf_write_call buf count s) (λ s'. sent (count_up count s')) ≡ sent t
    → Wrote count s t
unfolding buf_write_call
Wrote-buffer buf count s t e = elim (Bool-cases (leb count (length buf) && leb count s.room)) [
  | inl fits ↦ let e' = rw fits at e in record { same_callback = cc e'; counted_up = cc e' }
  | inr full ↦ let e' = rw full at e in cc e'
]

Wrote-call :
    (c : OCallback) (buf : List ℕ) (count : ℕ) (s t : OStream)
    → has_callback c ≡ true
    → and_then (call_back c buf count s) (λ s'. sent (count_up count s')) ≡ sent t
    → Wrote count s t
Wrote-call sizing buf count s t h e = cc h
Wrote-call buf_write buf count s t h e = Wrote-buffer buf count s t e
Wrote-call (custom f) buf count s t h e = Wrote-custom count (f s.state (take count buf)) s t e

pb_write-Wrote :
    (buf : List ℕ) (count : ℕ) (s t : OStream) → pb_write buf count s ≡ sent t → Wrote count s t
unfolding pb_write
pb_write-Wrote buf count s t e = elim (Bool-cases (ltb 0 count && has_callback s.callback)) [
  | inr idle ↦ let e' = rw idle at e in record { same_callback = cc e'; counted_up = cc e' }
  | inl busy ↦
      let e' = rw busy at e in
      elim (Bool-cases
        (ltb (written_after count s) s.bytes_written || ltb s.max_size (written_after count s))) [
          | inl full ↦ let e'' = rw full at e' in cc e''
          | inr room ↦
              let e'' = rw room at e' in
              Wrote-call s.callback buf count s t
                (second (ltb 0 count) (has_callback s.callback) busy) e''
        ]
]
  where
    second : (a b : Bool) → a && b ≡ true → b ≡ true
    second true b e = e
    second false b e = cc e

-- A sizing stream counts any number of bytes.
sizing_write :
    (buf : List ℕ) (count : ℕ) (z : OStream)
    → has_callback z.callback ≡ false
    → pb_write buf count z ≡ sent (count_up count z)
unfolding pb_write
sizing_write buf count z h = elim (Bool-cases (ltb 0 count && has_callback z.callback)) [
  | inl busy ↦ absurd (both (ltb 0 count) (has_callback z.callback) busy h)
  | inr idle ↦ rw idle
]
  where
    both : (a b : Bool) → a && b ≡ true → b ≡ false → ⊥
    both true b e f = cc (e, f)
    both false b e f = cc e

pub Counts-write : (buf : List ℕ) (count : ℕ) → Counts (pb_write buf count)
Counts-write buf count = record {
  on_sizing = λ s t z hs hz e.
      let w = pb_write-Wrote buf count s t e in
      record {
        measured = count_up count z;
        returns = sizing_write buf count z hz;
        still_sizing = hz;
        still_writing = ap has_callback (w.same_callback) ∙ hs;
        same_count = omega (arith, w.counted_up);
        in_range = λ h. omega arith;
        writing_in_range = λ h. omega (arith, w.counted_up);
      };
}

-- If `m` returns true on a stream with a callback, it counts `size` bytes.
pub record Adds (size : ℕ) (m : Encoder) : Type 0 where
  pub on_writing :
      (s t : OStream)
      → has_callback s.callback ≡ true
      → m s ≡ sent t
      → (has_callback t.callback ≡ true)
        × (t.bytes_written % 2 ^ 64 ≡ (s.bytes_written + size) % 2 ^ 64)
        × (s.bytes_written < 2 ^ 64 → t.bytes_written < 2 ^ 64)

pub Adds-write : (buf : List ℕ) (count : ℕ) → Adds count (pb_write buf count)
Adds-write buf count = record {
  on_writing = λ s t hs e.
      let w = pb_write-Wrote buf count s t e in
      (
        ap has_callback (w.same_callback) ∙ hs,
        omega (arith, w.counted_up),
        λ h. omega (arith, w.counted_up),
      );
}

-- What adds `size` bytes may be replaced on a sizing stream by one write of `size` bytes.
pub Counts-sized :
    (size : ℕ) (m : Encoder)
    → Adds size m
    → Counts (λ s. if not (has_callback s.callback) then pb_write [] size s else m s)
Counts-sized size m h = record {
  on_sizing = λ s t z hs hz e.
      let (writing, counted, bounded) = h.on_writing s t hs (rw hs at e) in
      rw hz (record {
        measured = count_up size z;
        returns = sizing_write [] size z hz;
        still_sizing = hz;
        still_writing = writing;
        same_count = omega arith;
        in_range = λ h. omega arith;
        writing_in_range = bounded;
      });
}

-- A run on a sizing stream tells what is added on another stream.
pub Counts-Adds :
    (m : Encoder) (z y : OStream)
    → Counts m
    → has_callback z.callback ≡ false
    → z.bytes_written ≡ 0
    → m z ≡ sent y
    → Adds y.bytes_written m
Counts-Adds m z y c hz zero_written at = record {
  on_writing = λ s t hs e.
      let r = c.on_sizing s t z hs hz e in
      let same : y.bytes_written ≡ r.measured.bytes_written = written (sym at ∙ r.returns) in
      (r.still_writing, omega (arith, r.same_count), r.writing_in_range);
}
  where
    written : {a b : OStream} → sent a ≡ sent b → a.bytes_written ≡ b.bytes_written
    written e = cc e
