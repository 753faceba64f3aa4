-- ===== src/Nanopb/IStream/Shrinks.antt =====
-- A read of one byte leaves a shorter stream, so a loop of such reads ends.
use logoguess.Common.{ℕ, zero, suc, ◌<◌, ◌≡◌, refl, arith, Option, List, [], ◌∷◌}
use logoguess.Nanopb.Errors.{PbError, end_of_stream}
use logoguess.Nanopb.IStream.{
  Callback, buf_read, custom, IStream, done, and_then, Decoder, buffer, pb_read, pb_readbyte,
  return_error,
}
use logoguess.Nanopb.IStream.Reads.{
  over, pb_readbyte-cons, pb_readbyte_end, pb_read_one, pb_read_end,
}
use logoguess.Nanopb.IStream.Safe.{
  IsByte, IsBuffer, Advance, Advance-IsBuffer, Runs, Runs-from, Runs-error, KeepsError-refl,
}

one_on :
    {b : ℕ} {mem : List ℕ} {n : ℕ} {e : Option PbError}
    → IsBuffer (over (b ∷ mem) (suc n) e)
    → Advance (over (b ∷ mem) (suc n) e) (over mem n e)
one_on {e = e} h = record {
  from_buffer = refl;
  covered = omega (arith, h.covered);
  octets = h.octets.1;
  in_step = omega arith;
  shrinks = omega arith;
  error_kept = KeepsError-refl e;
}

-- `m` reads a byte `b` and returns `val b`, or fails at the end of the stream.
record ReadsOne {A : Type 0} (m : Decoder A) (val : ℕ → A) : Type 0 where
  takes :
      (b : ℕ) (mem : List ℕ) (n : ℕ) (e : Option PbError)
      → m (over (b ∷ mem) (suc n) e) ≡ done (val b) (over mem n e)
  ends :
      (mem : List ℕ) (e : Option PbError)
      → m (over mem 0 e) ≡ return_error end_of_stream (over mem 0 e)

module _ {A B : Type 0} {Q : B → Type 0} (m : Decoder A) (val : ℕ → A) (f : A → Decoder B) where
  bind_at :
      (c : Callback) (mem : List ℕ) (n : ℕ) (e : Option PbError)
      → let s : IStream = record { callback = c; state = mem; bytes_left = n; errmsg = e } in
        ReadsOne m val
        → IsBuffer s
        → ((b : ℕ) (t : IStream)
            → IsByte b
            → IsBuffer t
            → t.bytes_left < n
            → Runs Q t (f (val b) t))
        → Runs Q s (and_then (m s) f)
  bind_at (custom g) mem n e r h k = cc (h.from_buffer)
  bind_at buf_read mem zero e r h k = rw (r.ends mem e) (Runs-error end_of_stream h)
  bind_at buf_read [] (suc n) e r h k = absurd (omega (arith, h.covered))
  bind_at buf_read (b ∷ mem) (suc n) e r h k = rw (r.takes b mem n e) (
      Runs-from (one_on h)
        (k b (over mem n e) h.octets.0 (Advance-IsBuffer (one_on h)) (omega arith)))

  bind_one :
      (s : IStream)
      → ReadsOne m val
      → IsBuffer s
      → ((b : ℕ) (t : IStream)
          → IsByte b
          → IsBuffer t
          → t.bytes_left < s.bytes_left
          → Runs Q t (f (val b) t))
      → Runs Q s (and_then (m s) f)
  bind_one s = bind_at s.callback s.state s.bytes_left s.errmsg

module _ {B : Type 0} {Q : B → Type 0} where
  pub pb_readbyte-bind :
      (f : ℕ → Decoder B) (s : IStream)
      → IsBuffer s
      → ((b : ℕ) (t : IStream)
          → IsByte b
          → IsBuffer t
          → t.bytes_left < s.bytes_left
          → Runs Q t (f b t))
      → Runs Q s (and_then (pb_readbyte s) f)
  pb_readbyte-bind f s =
      bind_one pb_readbyte (λ b. b) f s
        (record { takes = pb_readbyte-cons; ends = pb_readbyte_end })

  pub pb_read-bind_one :
      (f : List ℕ → Decoder B) (s : IStream)
      → IsBuffer s
      → ((b : ℕ) (t : IStream)
          → IsByte b
          → IsBuffer t
          → t.bytes_left < s.bytes_left
          → Runs Q t (f (b ∷ []) t))
      → Runs Q s (and_then (pb_read buffer 1 s) f)
  pb_read-bind_one f s =
      bind_one (pb_read buffer 1) (λ b. b ∷ []) f s
        (record { takes = pb_read_one; ends = λ mem e. pb_read_end buffer 1 mem 0 e (omega arith) })
