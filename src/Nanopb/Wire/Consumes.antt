-- ===== src/Nanopb/Wire/Consumes.antt =====
-- Reads that take a byte at least, if they return true.
use native.Mathlib.Nat.{mod-lt}
use logoguess.Common.Bits.{bit_or-lt}
use logoguess.Common.{
  lt→leb, ℕ, zero, suc, ◌+◌, ◌-◌, ◌*◌, ◌%◌, ◌^◌, ◌≤◌, ◌<◌, ◌≡◌, refl, arith, bit_and,
}
use logoguess.Common.{List, [], ◌∷◌, length, Option, ltb, le→leb, ◌==◌, if◌then◌else◌, Bool, false}
use logoguess.Common.{Bool-cases, inl, inr, ltb-false→le}
use logoguess.Nanopb.Errors.{PbError, end_of_stream, parent_stream_too_short}
use logoguess.Nanopb.IStream.{
  Callback, buf_read, custom, IStream, Outcome, done, failed, fault, and_then, Decoder, buffer,
  pb_read, pb_readbyte, return_error,
}
use logoguess.Nanopb.IStream.Reads.{pb_readbyte-cons}
use logoguess.Nanopb.IStream.Safe.{
  IsByte, IsBuffer, Advance, Advance-IsBuffer, Advance-refl, Advance-trans, Advance-set_error, Runs,
  returns, stops, Runs-if, KeepsError-refl,
}
use logoguess.Nanopb.IStream.SafeReads.{skipped}
use logoguess.Nanopb.Wire.{
  continues, pb_decode_varint32, pb_decode_varint32_eof, varint_loop, pb_decode_varint, split_tag,
  pb_decode_tag, pb_make_string_substream,
}
use logoguess.Nanopb.Wire.Safe.{varint_loop-Runs, varint32_rest-Runs, pb_decode_varint32_lem}

-- The run from `s` does not fault, and it takes a byte at least if it has a value.
pub data Consumes {A : Type 0} (P : A → Type 0) (s : IStream) : Outcome A → Type 0 where
  takes :
      {a : A} {t : IStream}
      → P a
      → Advance s t
      → t.bytes_left < s.bytes_left
      → Consumes P s (done a t)
  ends : {t : IStream} → Advance s t → Consumes P s (failed t)

module _ {A B : Type 0} {P : A → Type 0} {Q : B → Type 0} where
  pub Consumes-bind :
      {s : IStream} {r : Outcome A} {f : A → Decoder B}
      → Consumes P s r
      → ((a : A) (t : IStream) → P a → IsBuffer t → Runs Q t (f a t))
      → Consumes Q s (and_then r f)
  Consumes-bind {s} {f = f} (takes {a} {t} p b less) k = go (f a t) (k a t p (Advance-IsBuffer b))
    where
      go : (o : Outcome B) → Runs Q t o → Consumes Q s o
      go _ (returns q c) = takes q (Advance-trans b c) (omega (arith, less, c.shrinks))
      go _ (stops c) = ends (Advance-trans b c)
  Consumes-bind (ends b) k = ends b

readbyte_at :
    (c : Callback) (mem : List ℕ) (n : ℕ) (e : Option PbError)
    → let s : IStream = record { callback = c; state = mem; bytes_left = n; errmsg = e } in
      IsBuffer s → Consumes IsByte s (pb_readbyte s)
unfolding pb_readbyte
readbyte_at (custom f) mem n e b = cc (b.from_buffer)
readbyte_at buf_read mem zero e b = ends (Advance-set_error end_of_stream (Advance-refl b))
readbyte_at buf_read [] (suc n) e b = absurd (omega (arith, b.covered))
readbyte_at buf_read (x ∷ mem) (suc n) e b = rw (pb_readbyte-cons x mem n e) (
    takes b.octets.0
      (record {
        from_buffer = refl;
        covered = omega (arith, b.covered);
        octets = b.octets.1;
        in_step = omega arith;
        shrinks = omega arith;
        error_kept = KeepsError-refl e;
      })
      (omega arith))

pub pb_readbyte-Consumes : (s : IStream) → IsBuffer s → Consumes IsByte s (pb_readbyte s)
pb_readbyte-Consumes s = readbyte_at s.callback s.state s.bytes_left s.errmsg

pub pb_decode_varint32-Consumes :
    (s : IStream) → IsBuffer s → Consumes (λ v. v < 2 ^ 32) s (pb_decode_varint32 s)
pb_decode_varint32-Consumes s h =
    rw (pb_decode_varint32_lem s)
      (Consumes-bind (pb_readbyte-Consumes s h) λ b t hb ht. varint32_rest-Runs b t hb ht)

varint_round-Consumes :
    (fuel bitpos result : ℕ) (s : IStream)
    → bitpos < 64
    → 64 ≤ bitpos + 7 * fuel
    → result < 2 ^ 64
    → IsBuffer s
    → Consumes (λ v. v < 2 ^ 64) s (varint_loop (suc fuel) bitpos result s)
unfolding varint_loop
varint_round-Consumes fuel bitpos result s hb hf hr h = rw (lt→leb bitpos 64 hb) (
    Consumes-bind (pb_readbyte-Consumes s h) λ b t hb' ht.
      let r' = bit_or-lt 64 result _ hr (mod-lt (bit_and b 0x7f * 2 ^ bitpos) (omega arith)) in
      Runs-if (continues b)
        (λ more. varint_loop-Runs fuel ((bitpos + 7) % 256) _ t (omega arith) (omega arith) r' ht)
        (λ last. returns r' (Advance-refl ht)))

pub pb_decode_varint-Consumes :
    (s : IStream) → IsBuffer s → Consumes (λ v. v < 2 ^ 64) s (pb_decode_varint s)
unfolding pb_decode_varint
pb_decode_varint-Consumes s h =
    varint_round-Consumes 10 0 0 s (omega arith) (omega arith) (omega arith) h

read_at :
    (c : Callback) (mem : List ℕ) (n : ℕ) (e : Option PbError) (count : ℕ)
    → let s : IStream = record { callback = c; state = mem; bytes_left = n; errmsg = e } in
      IsBuffer s → Consumes (λ _. Unit {0}) s (pb_read buffer (suc count) s)
unfolding pb_read
read_at (custom f) mem n e count b = cc (b.from_buffer)
read_at buf_read mem n e count b = elim (Bool-cases (ltb n (suc count))) [
  | inl short ↦ rw (positive count, short) (ends (Advance-set_error end_of_stream (Advance-refl b)))
  | inr fits ↦
      let le = ltb-false→le n (suc count) fits in
      rw (positive count, fits, le→leb (suc count) (length mem) (omega (arith, b.covered)))
        (takes tt (skipped (suc count) b le) (omega arith))
]
  where
    positive : (count : ℕ) → (suc count == 0) ≡ false
    positive count = ground arith

pub pb_read-Consumes :
    (count : ℕ) (s : IStream)
    → IsBuffer s
    → Consumes (λ _. Unit {0}) s (pb_read buffer (suc count) s)
pb_read-Consumes count s = read_at s.callback s.state s.bytes_left s.errmsg count

-- What pb_decode_tag returns beside `*eof`.
pub pb_decode_tag-Consumes :
    (s : IStream) → IsBuffer s → Consumes (λ _. Unit {0}) s ((pb_decode_tag s).0)
unfolding pb_decode_tag split_tag pb_decode_varint32
pb_decode_tag-Consumes s h = split (pb_decode_varint32_eof s) (pb_decode_varint32-Consumes s h)
  where
    split :
        (r : Outcome ℕ × Bool)
        → Consumes (λ v. v < 2 ^ 32) s r.0
        → Consumes (λ _. Unit {0}) s ((split_tag r).0)
    split (done temp t, eof) (takes p a less) = elim (Bool-cases (temp == 0)) [
      | inl end ↦ rw end (ends a)
      | inr tag ↦ rw tag (takes tt a less)
    ]
    split (failed t, eof) (ends a) = ends a
    split (fault, eof) c = elim c [ ]

-- A stream from which a substream of `size` bytes can be cut, behind its length.
pub record Cut (s before : IStream) (size : ℕ) : Type 0 where
  pub opened : Advance s before
  pub less : before.bytes_left < s.bytes_left
  pub fits : size ≤ before.bytes_left

pub data Opens (s : IStream) : Outcome IStream → Type 0 where
  opens :
      {before : IStream} {size : ℕ}
      → Cut s before size
      → Opens s (
          done
            (record before { bytes_left = size })
            (record before { bytes_left = before.bytes_left - size }))
  refuses : {t : IStream} → Advance s t → Opens s (failed t)

pub Cut-IsBuffer :
    {s before : IStream} {size : ℕ}
    → Cut s before size
    → IsBuffer (record before { bytes_left = size })
Cut-IsBuffer c = record {
  from_buffer = c.opened.from_buffer;
  covered = omega (arith, c.opened.covered, c.fits);
  octets = c.opened.octets;
}

pub pb_make_string_substream-Opens :
    (s : IStream) → IsBuffer s → Opens s (pb_make_string_substream s)
unfolding pb_make_string_substream
pb_make_string_substream-Opens s h = cut (pb_decode_varint32 s) (pb_decode_varint32-Consumes s h)
  where
    cut :
        (o : Outcome ℕ)
        → Consumes (λ v. v < 2 ^ 32) s o
        → Opens s (
            and_then o λ size s'.
              if ltb s'.bytes_left size
              then return_error parent_stream_too_short s'
              else done
                  (record s' { bytes_left = size })
                  (record s' { bytes_left = s'.bytes_left - size }))
    cut _ (ends a) = refuses a
    cut (done size t) (takes p a less) = elim (Bool-cases (ltb t.bytes_left size)) [
      | inl short ↦ rw short (refuses (Advance-set_error parent_stream_too_short a))
      | inr fits ↦
          rw fits
            (opens (record { opened = a; less = less; fits = ltb-false→le t.bytes_left size fits }))
    ]
