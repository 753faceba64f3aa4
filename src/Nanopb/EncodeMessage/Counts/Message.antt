-- ===== src/Nanopb/EncodeMessage/Counts/Message.antt =====
-- pb_encode counts on a sizing stream what it writes on another stream.
use logoguess.Common.{
  ℕ, zero, suc, ◌≡◌, refl, ◌∙◌, ◌==◌, ==_iff, true, false, Option, none, some, List, length,
  get_elem?,
}
use logoguess.Nanopb.Field.{PbField, ltype, ltype_fixed32, ltype_fixed64}
use logoguess.Nanopb.FieldIter.{FieldIter, pb_field_iter_begin, pb_field_iter_next}
use logoguess.Nanopb.OStream.{OStream, Encoder, Emitted, sent, failed, fault, has_callback}
use logoguess.Nanopb.Encode.{pb_encode_fixed32, pb_encode_fixed64}
use logoguess.Nanopb.EncodeScalar.{pb_enc_fixed32, pb_enc_fixed64}
use logoguess.Nanopb.Memory.{Memory, plus, ◌>>=◌, load_pointer, load_number, memory_size}
use logoguess.Nanopb.Program.{EncodeProgram}
use logoguess.Nanopb.EncodeMessage.Default.{ChecksDefault, pb_check_proto3_default_value}
use logoguess.Nanopb.EncodeMessage.{
  encode_present, encode_by_htype, encode_basic_field, or_error, encode_callback_field,
  encode_field, default_extension_encoder, encode_extension, extension_loop, encode_extension_field,
  encode_one, fields_loop, pb_encode, SizePointer, find_size, set_has, read_has, read_count,
}
use logoguess.Nanopb.EncodeMessage.Values.{EncodesMessage, loaded, pb_enc_submessage, call_encoder}
use logoguess.Nanopb.EncodeMessage.Counts.{
  Counts, Measures, Adds, Counts-sent, Counts-fault, Counts-error, Counts-loaded, Counts-if,
  Counts->>, Adds-write,
}
use logoguess.Nanopb.EncodeMessage.Counts.Values.{
  Counts-tag_for_field, Counts-enc_bool, Counts-enc_varint, Counts-enc_uvarint, Counts-enc_svarint,
  Counts-enc_fixed32, Counts-enc_fixed64, Counts-enc_bytes, Counts-enc_string,
  Counts-enc_fixed_length_bytes,
}
use logoguess.Nanopb.EncodeMessage.Counts.Submessage.{Counts-submessage}
use logoguess.Nanopb.EncodeMessage.Counts.Arrays.{IsFunc, Counts-encode_array}

-- The user's functions write as many bytes each time they are called.
pub record CallbacksCount (program : EncodeProgram) : Type 0 where
  pub encode :
      (p : ℕ) (f : PbField → ℕ → Encoder)
      → program.encode_at p ≡ some f
      → (field : PbField) (arg : ℕ) → Counts (f field arg)
  pub extension_encode :
      (p : ℕ) (f : ℕ → Encoder)
      → program.extension_encode_at p ≡ some f
      → (extension : ℕ) → Counts (f extension)

Counts-loaded_from :
    {A : Type 0} (o : Option A) {k : A → Encoder}
    → ((a : A) → o ≡ some a → Counts (k a))
    → Counts (loaded o k)
Counts-loaded_from none h = Counts-fault
Counts-loaded_from (some a) h = h a refl

Adds-loaded :
    {A : Type 0} {size : ℕ} (o : Option A) {k : A → Encoder}
    → ((a : A) → Adds size (k a))
    → Adds size (loaded o k)
Adds-loaded none h = record { on_writing = λ s t hs e. cc e }
Adds-loaded (some a) h = h a

module _ (program : EncodeProgram) (mem : Memory) (pb_encode : EncodesMessage)
    (field : PbField) where
  Counts-enc_submessage : (src : ℕ) → Counts (pb_enc_submessage program mem pb_encode field src)
  unfolding pb_enc_submessage
  Counts-enc_submessage src =
      Counts-if _ (Counts-error _) (
        Counts-loaded (program.fields_at field.ptr)
          λ fields. Counts-submessage pb_encode fields src)

  Counts-call_encoder : (src : ℕ) → Counts (call_encoder program mem pb_encode field src)
  unfolding call_encoder
  Counts-call_encoder src =
      search
        (
          Counts-if, Counts-loaded, Counts-fault, Counts-enc_submessage, Counts-enc_bool,
          Counts-enc_varint, Counts-enc_uvarint, Counts-enc_svarint, Counts-enc_fixed32,
          Counts-enc_fixed64, Counts-enc_bytes, Counts-enc_string, Counts-enc_fixed_length_bytes,
        )
        depth 16

  call_encoder-fixed32 :
      (src : ℕ)
      → (ltype field.type == ltype_fixed32) ≡ true
      → call_encoder program mem pb_encode field src ≡ loaded (load_number 4 src mem) pb_enc_fixed32
  unfolding call_encoder
  call_encoder-fixed32 src e = rw ((==_iff (ltype field.type) ltype_fixed32).0 e)

  call_encoder-fixed64 :
      (src : ℕ)
      → (ltype field.type == ltype_fixed64) ≡ true
      → call_encoder program mem pb_encode field src ≡ loaded (load_number 8 src mem) pb_enc_fixed64
  unfolding call_encoder
  call_encoder-fixed64 src e = rw ((==_iff (ltype field.type) ltype_fixed64).0 e)

  call_encoder-IsFunc : IsFunc field (call_encoder program mem pb_encode field)
  unfolding pb_enc_fixed32 pb_encode_fixed32 pb_enc_fixed64 pb_encode_fixed64
  call_encoder-IsFunc = record {
    counts = Counts-call_encoder;
    fixed32 = λ e p.
        rw (call_encoder-fixed32 p e) (Adds-loaded (load_number 4 p mem) λ v. Adds-write _ 4);
    fixed64 = λ e p.
        rw (call_encoder-fixed64 p e) (Adds-loaded (load_number 8 p mem) λ v. Adds-write _ 8);
  }

module _ (program : EncodeProgram) (mem : Memory) (callbacks : CallbacksCount program) where
  module _ (check : ChecksDefault) (field : PbField) (func : ℕ → Encoder)
      (is : IsFunc field func) where
    Counts-present : (p : ℕ) → Counts (encode_present field func p)
    unfolding encode_present
    Counts-present p = Counts->> (Counts-tag_for_field field) (is.counts p)

    Counts-array :
        (p count : ℕ)
        → Counts (logoguess.Nanopb.EncodeMessage.Arrays.encode_array mem field p count func)
    Counts-array p count = Counts-encode_array field p count func is mem

    Counts-by_htype :
        (p_size : SizePointer) (p : ℕ) → Counts (encode_by_htype program mem field func p_size p)
    unfolding encode_by_htype
    Counts-by_htype p_size p =
        search (Counts-if, Counts-loaded, Counts-error, Counts-sent, Counts-present, Counts-array)
          depth 10

    Counts-basic : (p : ℕ) → Counts (encode_basic_field program mem check field func p)
    unfolding encode_basic_field
    Counts-basic p = Counts-loaded (find_size program mem check field p) λ p_size.
        Counts-if _ (Counts-loaded (load_pointer p mem) λ q. Counts-by_htype _ q)
          (Counts-by_htype p_size p)

  Counts-or_error : {m : Encoder} → Counts m → Counts (λ s. or_error (m s))
  Counts-or_error {m} h = record { on_sizing = λ s t z hs hz e. run s t z hs hz (m s) refl e }
    where
      run :
          (s t z : OStream)
          → has_callback s.callback ≡ true
          → has_callback z.callback ≡ false
          → (r : Emitted) → m s ≡ r
          → or_error r ≡ sent t
          → Measures s t z (or_error (m z))
      run s t z hs hz (failed u) at e = cc e
      run s t z hs hz fault at e = cc e
      run s t z hs hz (sent u) at e =
          let r = h.on_sizing s t z hs hz (at ∙ e) in
          rw r.returns (record {
            measured = r.measured;
            returns = refl;
            still_sizing = r.still_sizing;
            still_writing = r.still_writing;
            same_count = r.same_count;
            in_range = r.in_range;
            writing_in_range = r.writing_in_range;
          })

  Counts-callback : (field : PbField) (p : ℕ) → Counts (encode_callback_field program mem field p)
  unfolding encode_callback_field
  Counts-callback field p = Counts-loaded (load_pointer p mem) λ funcs. Counts-if _ Counts-sent (
      Counts-loaded_from (program.encode_at funcs)
        λ f at. Counts-or_error (callbacks.encode funcs f at field (plus p 8)))

  module _ (check : ChecksDefault) (func : PbField → ℕ → Encoder)
      (is : (field : PbField) → IsFunc field (func field)) where
    Counts-field : (field : PbField) (p : ℕ) → Counts (encode_field program mem check func field p)
    unfolding encode_field
    Counts-field field p =
        Counts-if _ (Counts-basic check field (func field) (is field) p)
          (Counts-if _ (Counts-callback field p) (Counts-error _))

    Counts-default_extension : (p : ℕ) → Counts (default_extension_encoder program mem check func p)
    unfolding default_extension_encoder
    Counts-default_extension p =
        Counts-loaded (load_pointer p mem >>= λ type. load_pointer (plus type 16) mem) λ arg.
          Counts-loaded (program.fields_at arg >>= λ fields. get_elem? fields 0) λ field.
            Counts-if _ (Counts-field field (plus p 8))
              (Counts-loaded (load_pointer (plus p 8) mem) (Counts-field field))

    Counts-extension : (p : ℕ) → Counts (encode_extension program mem check func p)
    unfolding encode_extension
    Counts-extension p =
        Counts-loaded (load_pointer p mem >>= λ type. load_pointer (plus type 8) mem) λ encode.
          Counts-if _ (Counts-default_extension p) (
            Counts-loaded_from (program.extension_encode_at encode)
              λ f at. callbacks.extension_encode encode f at p)

    Counts-extension_loop : (links p : ℕ) → Counts (extension_loop program mem links check func p)
    unfolding extension_loop
    Counts-extension_loop zero p = Counts-fault
    Counts-extension_loop (suc links) p = Counts-if _ Counts-sent (
        Counts->> (Counts-extension p)
          (Counts-loaded (load_pointer (plus p 16) mem) (Counts-extension_loop links)))

    Counts-one : (field : PbField) (p : ℕ) → Counts (encode_one program mem check func field p)
    unfolding encode_one encode_extension_field
    Counts-one field p =
        Counts-if _
          (Counts-loaded (load_pointer p mem) (Counts-extension_loop (suc (memory_size mem))))
          (Counts-field field p)

    Counts-fields_loop :
        (fuel : ℕ) (iter : FieldIter) → Counts (fields_loop program mem fuel check func iter)
    unfolding fields_loop
    Counts-fields_loop zero iter = Counts-fault
    Counts-fields_loop (suc fuel) iter = Counts-loaded (get_elem? iter.start iter.pos) λ field.
        Counts->> (Counts-one field iter.p_data) (
          Counts-loaded (pb_field_iter_next iter)
            λ next. Counts-if _ (Counts-fields_loop fuel (next.0)) Counts-sent)

  -- If pb_encode returns true on a stream with a callback, it returns true on a sizing stream, which
  -- counts as many bytes.
  pub Counts-pb_encode :
      (depth : ℕ) (fields : List PbField) (src : ℕ)
      → Counts (pb_encode program mem depth fields src)
  unfolding pb_encode
  Counts-pb_encode zero fields src = Counts-fault
  Counts-pb_encode (suc depth) fields src = Counts-loaded (pb_field_iter_begin fields src) λ first.
      Counts-if _
        (Counts-fields_loop (pb_check_proto3_default_value program mem (suc depth))
          (call_encoder program mem (pb_encode program mem depth))
          (λ field. call_encoder-IsFunc program mem (pb_encode program mem depth) field)
          (length fields) (first.0))
        Counts-sent
