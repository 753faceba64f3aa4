-- ===== src/Nanopb/IStream/SafeReads.antt =====
-- pb_read and pb_readbyte on a stream over a buffer.
use logoguess.Common.{[], ◌∷◌, ◌==◌, ◌&&◌}
use logoguess.Common.{ℕ, zero, suc, ◌-◌, ◌≤◌, ◌≡◌, refl, arith, ltb, le→leb, ltb-false→le, ◌==◌}
use logoguess.Common.{true, false, if◌then◌else◌, Option, List, length, drop, length-drop, All}
use logoguess.Common.{take, length-take, All-take, All-drop}
use logoguess.Nanopb.Errors.{PbError}
use logoguess.Nanopb.IStream.{Callback, buf_read, custom, IStream}
use logoguess.Nanopb.IStream.{Dest, null, buffer, is_null, kept, buf_read_call, read_block, pb_read}
use logoguess.Nanopb.IStream.{read_buffer, pb_readbyte}
use logoguess.Nanopb.IStream.Reads.{pb_readbyte-cons}
use logoguess.Nanopb.IStream.Safe.{
  IsByte, IsBuffer, Advance, Runs, returns, KeepsError-refl, Advance-refl, Runs-error, Runs-if,
}

abbrev stream : Callback → List ℕ → ℕ → Option PbError → IStream
stream c mem n e = record { callback = c; state = mem; bytes_left = n; errmsg = e }

-- The stream after `count` bytes were read.
pub skipped :
    (count : ℕ) {s : IStream}
    → IsBuffer s
    → count ≤ s.bytes_left
    → Advance s (record s { state = drop count s.state; bytes_left = s.bytes_left - count })
skipped count {s} b h = record {
  from_buffer = b.from_buffer;
  covered = omega (arith, b.covered, length-drop count s.state);
  octets = All-drop IsByte count s.state b.octets;
  in_step = omega (arith, b.covered, length-drop count s.state);
  shrinks = omega arith;
  error_kept = KeepsError-refl s.errmsg;
}

-- `count` bytes, or none if `buf` was null.
pub record IsRead (dest : Dest) (count : ℕ) (bytes : List ℕ) : Type 0 where
  pub wide : length bytes ≡ (if is_null dest then 0 else count)
  pub octets : All IsByte bytes

kept-IsRead :
    (dest : Dest) (count : ℕ) (mem : List ℕ)
    → count ≤ length mem
    → All IsByte mem
    → IsRead dest count (kept dest (take count mem))
kept-IsRead null count mem h o = record { wide = refl; octets = tt }
kept-IsRead buffer count mem h o = record {
  wide = length-take count mem h;
  octets = All-take IsByte count mem o;
}

read_block-Runs_at :
    (c : Callback) (mem : List ℕ) (n : ℕ) (e : Option PbError) (dest : Dest) (count : ℕ)
    → IsBuffer (stream c mem n e)
    → Runs (IsRead dest count) (stream c mem n e) (read_block dest count (stream c mem n e))
unfolding read_block
read_block-Runs_at (custom f) mem n e dest count b = cc (b.from_buffer)
read_block-Runs_at buf_read mem n e dest count b =
    Runs-if (ltb n count) (λ h. Runs-error _ b)
      (λ h.
        let fits : count ≤ length mem = omega (arith, b.covered, ltb-false→le n count h) in
        rw (le→leb count (length mem) fits, buf_read_call)
          (returns (kept-IsRead dest count mem fits b.octets)
            (skipped count b (omega (arith, ltb-false→le n count h)))))

read_block-Runs :
    (dest : Dest) (count : ℕ) (s : IStream)
    → IsBuffer s
    → Runs (IsRead dest count) s (read_block dest count s)
read_block-Runs dest count s =
    read_block-Runs_at s.callback s.state s.bytes_left s.errmsg dest count

nothing-IsRead : (dest : Dest) (count : ℕ) → (count == 0) ≡ true → IsRead dest count []
nothing-IsRead null count h = record { wide = refl; octets = tt }
nothing-IsRead buffer count h = record { wide = ground arith; octets = tt }

read_buffer-Runs :
    (count : ℕ) (s : IStream) → IsBuffer s → Runs (IsRead buffer count) s (read_buffer count s)
unfolding read_buffer
read_buffer-Runs count s b =
    Runs-if (count == 0) (λ h. returns (nothing-IsRead buffer count h) (Advance-refl b))
      (λ h. read_block-Runs buffer count s b)

pb_read-Runs_at :
    (c : Callback) (mem : List ℕ) (n : ℕ) (e : Option PbError) (dest : Dest) (count : ℕ)
    → IsBuffer (stream c mem n e)
    → Runs (IsRead dest count) (stream c mem n e) (pb_read dest count (stream c mem n e))
unfolding pb_read
pb_read-Runs_at (custom f) mem n e dest count b = cc (b.from_buffer)
pb_read-Runs_at buf_read mem n e dest count b =
    Runs-if (count == 0) (λ h. returns (nothing-IsRead dest count h) (Advance-refl b))
      (λ h. rw no_skip (read_block-Runs dest count _ b))
  where
    no_skip : (is_null dest && false) ≡ false
    no_skip = ground arith

-- pb_read of any count on any stream over a buffer: no access outside the buffer, `state` and
-- `bytes_left` in step, the first error message kept, and `count` bytes in a `buf` that is not NULL
-- if it returns true.
pub pb_read-Runs :
    (dest : Dest) (count : ℕ) (s : IStream)
    → IsBuffer s
    → Runs (IsRead dest count) s (pb_read dest count s)
pb_read-Runs dest count s = pb_read-Runs_at s.callback s.state s.bytes_left s.errmsg dest count

pb_readbyte-Runs_at :
    (c : Callback) (mem : List ℕ) (n : ℕ) (e : Option PbError)
    → IsBuffer (stream c mem n e)
    → Runs IsByte (stream c mem n e) (pb_readbyte (stream c mem n e))
unfolding pb_readbyte
pb_readbyte-Runs_at (custom f) mem n e b = cc (b.from_buffer)
pb_readbyte-Runs_at buf_read mem zero e b = Runs-error _ b
pb_readbyte-Runs_at buf_read [] (suc n) e b = absurd (omega (arith, b.covered))
pb_readbyte-Runs_at buf_read (x ∷ mem) (suc n) e b = rw (pb_readbyte-cons x mem n e) (
    returns b.octets.0 (record {
      from_buffer = refl;
      covered = omega (arith, b.covered);
      octets = b.octets.1;
      in_step = omega arith;
      shrinks = omega arith;
      error_kept = KeepsError-refl e;
    }))

pb_readbyte-Runs : (s : IStream) → IsBuffer s → Runs IsByte s (pb_readbyte s)
pb_readbyte-Runs s = pb_readbyte-Runs_at s.callback s.state s.bytes_left s.errmsg
