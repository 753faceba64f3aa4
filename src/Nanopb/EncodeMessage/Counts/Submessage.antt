-- ===== src/Nanopb/EncodeMessage/Counts/Submessage.antt =====
-- pb_encode_submessage counts on a sizing stream what it writes on another stream.
use logoguess.Common.{
  ℕ, ◌<◌, ◌+◌, ◌%◌, ◌^◌, ◌≡◌, sym, ap, ◌∙◌, arith, ltb, ◌==◌, ==_iff, true, none, List, Bool-cases,
  inl, inr,
}
use logoguess.Nanopb.Field.{PbField}
use logoguess.Nanopb.OStream.{
  OStream, Emitted, sent, failed, fault, and_then, has_callback, pb_ostream_sizing,
}
use logoguess.Nanopb.Encode.{pb_encode_varint}
use logoguess.Nanopb.EncodeMessage.Values.{
  EncodesMessage, close_submessage, closed, write_submessage, sized, pb_encode_submessage,
}
use logoguess.Nanopb.EncodeMessage.Counts.{Counts, Counts-fault, Counts->>, Counts-sized}
use logoguess.Nanopb.EncodeMessage.Counts.Values.{Counts-varint}

pub Counts-failed : (f : OStream → OStream) → Counts (λ s. failed (f s))
Counts-failed f = record { on_sizing = λ s t z hs hz e. cc e }

closed-Adds :
    (size : ℕ) (r : Emitted) (s t : OStream)
    → has_callback s.callback ≡ true
    → closed size r s ≡ sent t
    → (has_callback t.callback ≡ true)
      × (t.bytes_written % 2 ^ 64 ≡ (s.bytes_written + size) % 2 ^ 64)
      × (s.bytes_written < 2 ^ 64 → t.bytes_written < 2 ^ 64)
unfolding close_submessage
closed-Adds size fault s t hs e = cc e
closed-Adds size (failed sub) s t hs e = elim (Bool-cases (sub.bytes_written == size)) [
  | inl same ↦ let e' = rw same at e in cc e'
  | inr other ↦ let e' = rw other at e in cc e'
]
closed-Adds size (sent sub) s t hs e = elim (Bool-cases (sub.bytes_written == size)) [
  | inl same ↦
      let e' = rw same at e in
      let wide : sub.bytes_written ≡ size = (==_iff sub.bytes_written size).0 same in
      let counted : (s.bytes_written + sub.bytes_written) % 2 ^ 64 ≡ t.bytes_written = cc e' in
      let same_callback : s.callback ≡ t.callback = cc e' in
      (sym (ap has_callback same_callback) ∙ hs, omega arith, λ h. omega arith)
  | inr other ↦ let e' = rw other at e in cc e'
]

Counts-write_submessage :
    (pb_encode : EncodesMessage) (fields : List PbField) (src size : ℕ)
    → Counts (write_submessage pb_encode fields src size)
unfolding write_submessage
Counts-write_submessage pb_encode fields src size = Counts-sized size _ (record {
  on_writing = λ s t hs e. elim (Bool-cases (ltb s.max_size ((s.bytes_written + size) % 2 ^ 64))) [
    | inl full ↦ let e' = rw full at e in cc e'
    | inr fits ↦
        closed-Adds size
          (pb_encode fields src (record s { max_size = size; bytes_written = 0; errmsg = none })) s
          t hs (rw fits at e)
  ];
})

pub Counts-submessage :
    (pb_encode : EncodesMessage) (fields : List PbField) (src : ℕ)
    → Counts (pb_encode_submessage pb_encode fields src)
unfolding pb_encode_submessage
Counts-submessage pb_encode fields src = by_size (pb_encode fields src pb_ostream_sizing)
  where
    by_size :
        (r : Emitted)
        → Counts (
            sized r λ size s.
              and_then (pb_encode_varint size s) (write_submessage pb_encode fields src size))
    by_size (sent sub) =
        Counts->> (Counts-varint sub.bytes_written)
          (Counts-write_submessage pb_encode fields src sub.bytes_written)
    by_size (failed sub) = Counts-failed (λ s. record s { errmsg = sub.errmsg })
    by_size fault = Counts-fault
