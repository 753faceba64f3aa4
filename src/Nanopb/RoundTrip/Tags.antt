-- ===== src/Nanopb/RoundTrip/Tags.antt =====
-- pb_encode_tag against pb_decode_tag.
use native.Mathlib.Nat.{mod-eq_of_lt}
use logoguess.Common.{
  ℕ, ◌+◌, ◌*◌, ◌/◌, ◌%◌, ◌^◌, ◌<◌, ◌≡◌, refl, ap, ◌∙◌, arith, bit_or, ◌==◌, if◌then◌else◌,
}
use logoguess.Common.{List, ◌++◌, length, Option, true, false}
use logoguess.Common.Bits.{bit_and-mask, bit_or-shifted, bit_or_comm}
use logoguess.Nanopb.Errors.{PbError}
use logoguess.Nanopb.IStream.{done, failed}
use logoguess.Nanopb.IStream.Reads.{over}
use logoguess.Nanopb.OStream.{OStream, sent}
use logoguess.Nanopb.OStream.Room.{HasRoom, pushed, Emits}
use logoguess.Nanopb.Encode.{pb_encode_tag}
use logoguess.Nanopb.Encode.Varint.{varint64, pb_encode_varint-Emits}
use logoguess.Nanopb.Wire.{split_tag, pb_decode_tag}
use logoguess.Nanopb.Wire.Varint32.{pb_decode_varint32_eof-varint}

-- The number that a tag is coded as.
abbrev tag_number : ℕ → ℕ → ℕ
tag_number wiretype field_number = wiretype + field_number * 8

tag_bits :
    (wiretype field_number : ℕ)
    → wiretype < 8
    → field_number < 2 ^ 29
    → bit_or (field_number * 2 ^ 3 % 2 ^ 64) wiretype ≡ tag_number wiretype field_number
tag_bits wiretype field_number hw hf =
    let fits : field_number * 2 ^ 3 < 2 ^ 64 = omega arith in
    ap (λ (t : ℕ). bit_or t wiretype) (mod-eq_of_lt fits)
    ∙ bit_or_comm (field_number * 2 ^ 3) wiretype
    ∙ bit_or-shifted 3 wiretype field_number hw

pb_encode_tag-Emits :
    (wiretype field_number : ℕ)
    → wiretype < 8
    → field_number < 2 ^ 29
    → Emits (pb_encode_tag wiretype field_number) (varint64 (tag_number wiretype field_number))
unfolding pb_encode_tag
pb_encode_tag-Emits wiretype field_number hw hf =
    rw (pb_encode_tag, tag_bits wiretype field_number hw hf)
      (pb_encode_varint-Emits (tag_number wiretype field_number) (omega arith))

-- pb_decode_tag splits the number; a zero is taken for the end of the message.
pb_decode_tag-varint :
    (temp : ℕ) (mem : List ℕ) (n : ℕ) (e : Option PbError)
    → temp < 2 ^ 32
    → pb_decode_tag (over (varint64 temp ++ mem) (length (varint64 temp) + n) e) ≡ (
        if temp == 0
        then (failed (over mem n e), true)
        else (done (temp % 8, temp / 8) (over mem n e), false))
unfolding pb_decode_tag split_tag
pb_decode_tag-varint temp mem n e h =
    rw (pb_decode_varint32_eof-varint temp mem n e h, bit_and-mask 3 temp) refl

-- pb_encode_tag writes a wire type and a field number of 29 bits but 0 to a stream with room for
-- the varint of both, and pb_decode_tag gets them back from there without setting `*eof`.
pub pb_encode_tag-pb_decode_tag :
    (wiretype field_number : ℕ) (s : OStream) (mem : List ℕ) (n : ℕ) (e : Option PbError)
    → wiretype < 8
    → field_number < 2 ^ 29
    → 0 < field_number
    → HasRoom (length (varint64 (tag_number wiretype field_number))) s
    → let bytes = varint64 (tag_number wiretype field_number) in
      (pb_encode_tag wiretype field_number s ≡ sent (pushed bytes s))
      × (pb_decode_tag (over (bytes ++ mem) (length bytes + n) e)
          ≡ (done (wiretype, field_number) (over mem n e), false))
pb_encode_tag-pb_decode_tag wiretype field_number s mem n e hw hf pos room = (
  pb_encode_tag-Emits wiretype field_number hw hf s room,
  pb_decode_tag-varint (tag_number wiretype field_number) mem n e (omega arith)
      ∙ rw (not_zero wiretype field_number pos, type_of, number_of),
)
  where
    not_zero : (w f : ℕ) → 0 < f → (tag_number w f == 0) ≡ false
    not_zero w f h = ground arith

    type_of : tag_number wiretype field_number % 8 ≡ wiretype
    type_of = omega arith

    number_of : tag_number wiretype field_number / 8 ≡ field_number
    number_of = omega arith
