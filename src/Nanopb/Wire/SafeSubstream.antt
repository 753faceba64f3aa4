-- ===== src/Nanopb/Wire/SafeSubstream.antt =====
-- pb_make_string_substream and pb_close_string_substream on a stream over a buffer.
use mathlib.Core.Path.{subst}
use logoguess.Common.{ℕ, zero, suc, ◌-◌, ◌^◌, ◌≤◌, ◌<◌, ◌≡◌, refl, ap, arith, ltb, if◌then◌else◌}
use logoguess.Common.{
  List, [], length, drop, length-drop, All-drop, Option, le→leb, ltb-false→le, Bool-cases, inl, inr,
}
use logoguess.Nanopb.Errors.{PbError, parent_stream_too_short}
use logoguess.Nanopb.IStream.{
  Callback, buf_read, custom, IStream, Outcome, done, failed, fault, and_then, pb_read,
  return_error,
}
use logoguess.Nanopb.IStream.Safe.{
  IsByte, IsBuffer, Advance, Advance-trans, Advance-IsBuffer, Advance-set_error,
}
use logoguess.Nanopb.IStream.Safe.{Runs, returns, stops}
use logoguess.Nanopb.Wire.{
  pb_decode_varint32, pb_make_string_substream, skip_left, pb_close_string_substream,
}
use logoguess.Nanopb.Wire.Safe.{pb_decode_varint32-Runs}

skip_left-all_at :
    (c : Callback) (mem : List ℕ) (n : ℕ) (e : Option PbError)
    → let s : IStream = record { callback = c; state = mem; bytes_left = n; errmsg = e } in
      IsBuffer s → skip_left s ≡ done [] (record s { state = drop n mem; bytes_left = 0 })
unfolding skip_left pb_read
skip_left-all_at (custom f) mem n e h = cc (h.from_buffer)
skip_left-all_at buf_read mem zero e h = refl
skip_left-all_at buf_read mem (suc n) e h =
    let fits : suc n ≤ length mem = omega (arith, h.covered) in
    ground (arith, le→leb (suc n) (length mem) fits)

skip_left-all :
    (s : IStream)
    → IsBuffer s
    → skip_left s ≡ done [] (record s { state = drop s.bytes_left s.state; bytes_left = 0 })
skip_left-all s = skip_left-all_at s.callback s.state s.bytes_left s.errmsg

-- However a substream `sub` of `s` was used, closing it succeeds, and what `t` then is stands in
-- step behind the whole substream.
abbrev Closes : IStream → IStream → IStream → Type 0
Closes s sub t =
    (used : IStream)
    → Advance sub used
    → (u : IStream) × (pb_close_string_substream used t ≡ done tt u)
      × Advance s u
      × (u.bytes_left ≡ t.bytes_left)

pub data Opens (s : IStream) : Outcome IStream → Type 0 where
  opens : {sub t : IStream} → IsBuffer sub → Closes s sub t → Opens s (done sub t)
  refuses : {t : IStream} → Advance s t → Opens s (failed t)

pub closed_lem :
    (used t : IStream)
    → IsBuffer used
    → pb_close_string_substream used t
      ≡ done tt (record t { state = drop used.bytes_left used.state; errmsg = used.errmsg })
unfolding pb_close_string_substream
closed_lem used t h = rw (pb_close_string_substream, skip_left-all used h)

cut_substream :
    (s : IStream) (size : ℕ)
    → IsBuffer s
    → size ≤ s.bytes_left
    → IsBuffer (record s { bytes_left = size })
cut_substream s size h hs = record {
  from_buffer = h.from_buffer;
  covered = omega (arith, h.covered);
  octets = h.octets;
}

cut-Closes :
    (s : IStream) (size : ℕ)
    → IsBuffer s
    → size ≤ s.bytes_left
    → Closes s (record s { bytes_left = size }) (record s { bytes_left = s.bytes_left - size })
cut-Closes s size h hs used a = (
  _,
  closed_lem used _ (Advance-IsBuffer a),
  record {
    from_buffer = h.from_buffer;
    covered =
        omega (arith, h.covered, a.covered, a.in_step, length-drop used.bytes_left used.state);
    octets = All-drop IsByte used.bytes_left used.state a.octets;
    in_step =
        omega (arith, h.covered, a.covered, a.in_step, length-drop used.bytes_left used.state);
    shrinks = omega arith;
    error_kept = a.error_kept;
  },
  refl,
)

open_from :
    (s : IStream) (o : Outcome ℕ)
    → Runs (λ v. v < 2 ^ 32) s o
    → Opens s (
        and_then o λ size s'.
          if ltb s'.bytes_left size
          then return_error parent_stream_too_short s'
          else done
              (record s' { bytes_left = size })
              (record s' { bytes_left = s'.bytes_left - size }))
open_from s fault r = elim r [ ]
open_from s (failed t) (stops a) = refuses a
open_from s (done size t) (returns p a) = elim (Bool-cases (ltb t.bytes_left size)) [
  | inl short ↦ rw short (refuses (Advance-set_error parent_stream_too_short a))
  | inr fits ↦
      let hs = ltb-false→le t.bytes_left size fits in
      let h = Advance-IsBuffer a in
      rw fits (
        opens (cut_substream t size h hs) λ used b.
          let (u, closed, c, same) = cut-Closes t size h hs used b in
          (u, closed, Advance-trans a c, same))
]

pb_make_string_substream-Opens : (s : IStream) → IsBuffer s → Opens s (pb_make_string_substream s)
unfolding pb_make_string_substream
pb_make_string_substream-Opens s h =
    open_from s (pb_decode_varint32 s) (pb_decode_varint32-Runs s h)

done-Closes :
    {s sub t : IStream} {o : Outcome IStream}
    → o ≡ done sub t
    → Opens s o
    → IsBuffer sub × Closes s sub t
done-Closes {s} {sub} {t} e (opens h c) =
    subst (λ (p : IStream × IStream). IsBuffer p.0 × Closes s p.0 p.1) (done-injective e) (h, c)
  where
    parts : Outcome IStream → IStream × IStream
    parts (done a u) = (a, u)
    parts (failed u) = (u, u)
    parts fault = (sub, t)

    done-injective :
        {a b u v : IStream}
        → ◌≡◌ {A = Outcome IStream} (done a u) (done b v)
        → ◌≡◌ {A = IStream × IStream} (a, u) (b, v)
    done-injective e = ap parts e
done-Closes e (refuses a) = cc e

-- When pb_make_string_substream has cut a substream from a stream over a buffer, it is one over the
-- buffer too. However it was then used, pb_close_string_substream succeeds, and leaves the stream
-- with `state` and `bytes_left` in step behind all bytes of the substream.
pub pb_close_string_substream-Advance :
    (s sub t used : IStream)
    → IsBuffer s
    → pb_make_string_substream s ≡ done sub t
    → Advance sub used
    → IsBuffer sub
      × ((u : IStream) × (pb_close_string_substream used t ≡ done tt u)
          × Advance s u
          × (u.bytes_left ≡ t.bytes_left))
pb_close_string_substream-Advance s sub t used h e a =
    let (b, closes) = done-Closes e (pb_make_string_substream-Opens s h) in (b, closes used a)
