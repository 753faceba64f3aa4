-- ===== src/Nanopb/SizeExamples.antt =====
-- Examples of the theorems about the sizes of encoded messages.
use mathlib.Core.Path.{subst}
use mathlib.Core.Option.{some-injective}
use logoguess.Common.{arith, ℕ, ◌≡◌, refl, Bool, true, false, some, none, List, ◌==◌, if◌then◌else◌}
use logoguess.Nanopb.Field.{PbField}
use logoguess.Nanopb.OStream.{Encoder, sent, pb_ostream_from_buffer}
use logoguess.Nanopb.EncodeMessage.{pb_encode, pb_get_encoded_size}
use logoguess.Nanopb.EncodeMessage.Values.{pb_encode_submessage}
use logoguess.Nanopb.EncodeMessage.Counts.{Counts}
use logoguess.Nanopb.EncodeMessage.Counts.Values.{Counts-varint}
use logoguess.Nanopb.EncodeMessage.Counts.Message.{CallbacksCount}
use logoguess.Nanopb.EncodeMessage.Counts.Sizes.{pb_get_encoded_size_lem, pb_encode_submessage_lem}
use logoguess.Nanopb.EncodeMessage.Depth.{IsNested}
use logoguess.Nanopb.EncodeMessage.Depth.Enough.{encode_over, pb_encode-IsNested}
use logoguess.Nanopb.MessageExamples.{
  point_fields, pair_fields, write_seven, encode_program, full_pair, small_buffer, written_pair,
  after_length, sized_point, written_point, pair_encoded,
}

encode_program-CallbacksCount : CallbacksCount encode_program
encode_program-CallbacksCount = record {
  encode = λ p f e field arg.
      subst (λ (g : PbField → ℕ → Encoder). Counts (g field arg)) (seven (p == 3000) f e)
        (Counts-varint 7);
  extension_encode = λ p f e. absurd (no e);
}
  where
    no : {A : Type 0} {a : A} → none ≡ some a → ⊥
    no e = cc e

    seven :
        (b : Bool) (f : PbField → ℕ → Encoder)
        → (if b then some write_seven else none) ≡ some f
        → write_seven ≡ f
    seven true f e = some-injective _ _ e
    seven false f e = cc e

pb_get_encoded_size_lem_example :
    pb_get_encoded_size encode_program full_pair 3 pair_fields 4096 ≡ some (some 11)
unfolding pb_ostream_from_buffer
pb_get_encoded_size_lem_example =
    pb_get_encoded_size_lem encode_program full_pair 3 pair_fields 4096 (small_buffer 20)
      written_pair encode_program-CallbacksCount refl refl pair_encoded.0

pb_encode_submessage_lem_example :
    pb_encode_submessage (pb_encode encode_program full_pair 2) point_fields 4096 (small_buffer 20)
    ≡ sent (record written_point { max_size = 20; bytes_written = 6 })
unfolding pb_ostream_from_buffer
pb_encode_submessage_lem_example =
    pb_encode_submessage_lem encode_program full_pair 2 point_fields 4096 (small_buffer 20)
      after_length sized_point written_point encode_program-CallbacksCount refl (omega arith)
      (omega arith) pair_encoded.1.0 pair_encoded.1.1.0 pair_encoded.1.1.1

pair-IsNested : IsNested encode_program 2 pair_fields
pair-IsNested = (
  (refl, λ sub at is. point at),
  ((refl, λ sub at is. point at), ((refl, λ sub at is. absurd (no is)), tt)),
)
  where
    no : false ≡ true → ⊥
    no e = cc e

    point : {sub : List PbField} → some point_fields ≡ some sub → IsNested encode_program 1 sub
    point at =
        subst (λ (sub : List PbField). IsNested encode_program 1 sub) (some-injective _ _ at)
          (
            (refl, λ sub at is. absurd (no is)),
            ((refl, λ sub at is. absurd (no is)), ((refl, λ sub at is. absurd (no is)), tt)),
          )

pb_encode-IsNested_example :
    pb_encode encode_program full_pair 9 pair_fields 4096
    ≡ encode_over encode_program full_pair
        (λ fields src s. sent s)
        (λ field p. some true)
        2
        pair_fields
        4096
pb_encode-IsNested_example =
    pb_encode-IsNested encode_program full_pair (λ fields src s. sent s) (λ field p. some true) 2 7
      pair_fields 4096 pair-IsNested
