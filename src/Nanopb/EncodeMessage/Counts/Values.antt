-- ===== src/Nanopb/EncodeMessage/Counts/Values.antt =====
-- The encoders of values count on a sizing stream what they write on another stream.
use logoguess.Common.{
  ℕ, ◌-◌, ◌%◌, ◌^◌, ◌≡◌, sym, ◌∙◌, leb, ◌==◌, if◌then◌else◌, Option, none, some, List, [], ◌∷◌,
  length, Bool-cases, inl, inr,
}
use logoguess.Common.Int.{ℤ}
use logoguess.Nanopb.Field.{PbField, atype, atype_pointer}
use logoguess.Nanopb.OStream.{OStream, Encoder, fault, pb_write}
use logoguess.Nanopb.Encode.{
  varint_groups, clear_last, pb_encode_varint, pb_encode_svarint, zigzag, pb_encode_fixed32,
  pb_encode_fixed64, pb_encode_tag, pb_encode_tag_for_field, pb_encode_string,
}
use logoguess.Nanopb.EncodeScalar.{
  PbBytesArray, string_length, pb_enc_bool, pb_enc_varint, pb_enc_uvarint, pb_enc_svarint,
  pb_enc_fixed32, pb_enc_fixed64, pb_enc_bytes, pb_enc_string, pb_enc_fixed_length_bytes,
}
use logoguess.Nanopb.DecodeScalar.{int_width}
use logoguess.Nanopb.EncodeMessage.Counts.{
  Counts, Counts-fault, Counts-error, Counts-if, Counts->>, Counts-write,
}

-- Encoders that do the same count alike.
Counts-same : (m k : Encoder) → ((s : OStream) → m s ≡ k s) → Counts k → Counts m
Counts-same m k h c = record {
  on_sizing = λ s t z hs hz e. rw (h z) (c.on_sizing s t z hs hz (sym (h s) ∙ e));
}

pub Counts-varint : (value : ℕ) → Counts (pb_encode_varint value)
unfolding pb_encode_varint
Counts-varint value = elim (Bool-cases (leb value 0x7f)) [
  | inl short ↦
      Counts-same (pb_encode_varint value) _ (λ s. rw short) (Counts-write (value % 256 ∷ []) 1)
  | inr long ↦ by_groups (varint_groups 10 value) (λ s. rw long)
]
  where
    by_groups :
        (o : Option (List ℕ))
        → ((s : OStream)
            → pb_encode_varint value s ≡ elim o [
              | none ↦ fault
              | some stored ↦ pb_write (clear_last stored) (length stored) s
            ])
        → Counts (pb_encode_varint value)
    by_groups none h = Counts-same (pb_encode_varint value) _ h Counts-fault
    by_groups (some stored) h =
        Counts-same (pb_encode_varint value) _ h (Counts-write (clear_last stored) (length stored))

Counts-svarint : (value : ℤ) → Counts (pb_encode_svarint value)
unfolding pb_encode_svarint
Counts-svarint value = Counts-varint (zigzag value)

pub Counts-tag : (wiretype field_number : ℕ) → Counts (pb_encode_tag wiretype field_number)
unfolding pb_encode_tag
Counts-tag wiretype field_number = Counts-varint _

pub Counts-tag_for_field : (field : PbField) → Counts (pb_encode_tag_for_field field)
unfolding pb_encode_tag_for_field
Counts-tag_for_field field = search (Counts-if, Counts-tag, Counts-error)

Counts-string : (buffer : List ℕ) (size : ℕ) → Counts (pb_encode_string buffer size)
unfolding pb_encode_string
Counts-string buffer size = Counts->> (Counts-varint size) (Counts-write buffer size)

pub Counts-enc_bool : (src : List ℕ) → Counts (pb_enc_bool src)
unfolding pb_enc_bool
Counts-enc_bool src = Counts-varint _

Counts-option :
    {A : Type 0} (o : Option A) (m : Encoder) (k : A → Encoder)
    → Counts m
    → ((a : A) → Counts (k a))
    → Counts (elim o [ none ↦ m | some a ↦ k a ])
Counts-option none m k hm hk = hm
Counts-option (some a) m k hm hk = hk a

pub Counts-enc_varint : (field : PbField) (src : ℤ) → Counts (pb_enc_varint field src)
unfolding pb_enc_varint
Counts-enc_varint field src =
    Counts-option (int_width field.data_size) _ _ (Counts-error _) (λ w. Counts-varint _)

pub Counts-enc_uvarint : (field : PbField) (src : ℕ) → Counts (pb_enc_uvarint field src)
unfolding pb_enc_uvarint
Counts-enc_uvarint field src =
    Counts-option (int_width field.data_size) _ _ (Counts-error _) (λ w. Counts-varint src)

pub Counts-enc_svarint : (field : PbField) (src : ℤ) → Counts (pb_enc_svarint field src)
unfolding pb_enc_svarint
Counts-enc_svarint field src =
    Counts-option (int_width field.data_size) _ _ (Counts-error _) (λ w. Counts-svarint src)

pub Counts-enc_fixed32 : (src : ℕ) → Counts (pb_enc_fixed32 src)
unfolding pb_enc_fixed32 pb_encode_fixed32
Counts-enc_fixed32 src = Counts-write _ 4

pub Counts-enc_fixed64 : (src : ℕ) → Counts (pb_enc_fixed64 src)
unfolding pb_enc_fixed64 pb_encode_fixed64
Counts-enc_fixed64 src = Counts-write _ 8

pub Counts-enc_bytes :
    (field : PbField) (src : Option PbBytesArray) → Counts (pb_enc_bytes field src)
unfolding pb_enc_bytes
Counts-enc_bytes field none = Counts-string [] 0
Counts-enc_bytes field (some src) = Counts-if _ (Counts-error _) (Counts-string src.bytes src.size)

pub Counts-enc_string : (field : PbField) (src : Option (List ℕ)) → Counts (pb_enc_string field src)
unfolding pb_enc_string
Counts-enc_string field none = Counts-string [] 0
Counts-enc_string field (some src) =
    Counts-option
      (string_length (if atype field.type == atype_pointer then 2 ^ 64 - 1 else field.data_size)
        src)
      _ _ Counts-fault (λ size. Counts-string src size)

pub Counts-enc_fixed_length_bytes :
    (field : PbField) (src : List ℕ) → Counts (pb_enc_fixed_length_bytes field src)
unfolding pb_enc_fixed_length_bytes
Counts-enc_fixed_length_bytes field src = Counts-string src field.data_size
