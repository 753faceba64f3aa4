-- ===== src/Nanopb/EncodeMessage/Counts/Arrays.antt =====
-- encode_array counts on a sizing stream what it writes on another stream.
use logoguess.Common.{
  ℕ, ◌<◌, zero, suc, ◌+◌, ◌*◌, ◌%◌, ◌^◌, ◌≡◌, refl, sym, ap, ◌∙◌, arith, ◌==◌, true, Bool-cases,
  inl, inr,
}
use logoguess.Nanopb.Field.{PbField, ltype, ltype_fixed32, ltype_fixed64}
use logoguess.Nanopb.OStream.{
  OStream, Encoder, Emitted, sent, failed, fault, and_then, ◌>>◌, has_callback, pb_ostream_sizing,
}
use logoguess.Nanopb.Encode.{pb_encode_varint}
use logoguess.Nanopb.Memory.{Memory, plus, load_pointer}
use logoguess.Nanopb.EncodeMessage.Arrays.{
  array_loop, measured, packed_size, packed_data, packed_array, array_item, encode_array,
}
use logoguess.Nanopb.EncodeMessage.Counts.{
  Counts, Adds, Counts-sent, Counts-fault, Counts-error, Counts-loaded, Counts-if, Counts->>,
  Counts-sized, Counts-Adds,
}
use logoguess.Nanopb.EncodeMessage.Counts.Values.{Counts-varint, Counts-tag, Counts-tag_for_field}
use logoguess.Nanopb.EncodeMessage.Counts.Submessage.{Counts-failed}

-- What encode_array relies on about the encoder of a field's values.
pub record IsFunc (field : PbField) (func : ℕ → Encoder) : Type 0 where
  pub counts : (p : ℕ) → Counts (func p)
  pub fixed32 : (ltype field.type == ltype_fixed32) ≡ true → (p : ℕ) → Adds 4 (func p)
  pub fixed64 : (ltype field.type == ltype_fixed64) ≡ true → (p : ℕ) → Adds 8 (func p)

Counts-array_loop :
    (item : ℕ → Encoder) (data_size count p : ℕ)
    → ((p : ℕ) → Counts (item p))
    → Counts (array_loop item data_size count p)
unfolding array_loop
Counts-array_loop item data_size zero p h = Counts-sent
Counts-array_loop item data_size (suc count) p h =
    Counts->> (h p) (Counts-array_loop item data_size count (plus p data_size) h)

Adds->> : {a b : ℕ} {m k : Encoder} → Adds a m → Adds b k → Adds (a + b) (m >> k)
Adds->> {a} {b} {m} {k} hm hk = record { on_writing = λ s t hs e. run s t hs (m s) refl e }
  where
    run :
        (s t : OStream)
        → has_callback s.callback ≡ true
        → (r : Emitted) → m s ≡ r
        → and_then r k ≡ sent t
        → (has_callback t.callback ≡ true)
          × (t.bytes_written % 2 ^ 64 ≡ (s.bytes_written + (a + b)) % 2 ^ 64)
          × (s.bytes_written < 2 ^ 64 → t.bytes_written < 2 ^ 64)
    run s t hs (failed u) at e = cc e
    run s t hs fault at e = cc e
    run s t hs (sent u) at e =
        let (writing, counted, bounded) = hm.on_writing s u hs at in
        let (writing', counted', bounded') = hk.on_writing u t writing e in
        (writing', omega arith, λ h. bounded' (bounded h))

Adds-array_loop :
    (item : ℕ → Encoder) (size data_size count p : ℕ)
    → ((p : ℕ) → Adds size (item p))
    → Adds (size * count) (array_loop item data_size count p)
unfolding array_loop
Adds-array_loop item size data_size zero p h = record {
  on_writing = λ s t hs e. (
    sym (ap (λ (r : OStream). has_callback r.callback) (stays e)) ∙ hs,
    omega (arith, ap (λ (r : OStream). r.bytes_written) (stays e)),
    λ h. omega (arith, ap (λ (r : OStream). r.bytes_written) (stays e)),
  );
}
  where
    stays : {a b : OStream} → sent a ≡ sent b → a ≡ b
    stays e = cc e
Adds-array_loop item size data_size (suc count) p h =
    rw (mul_suc size count)
      (Adds->> (h p) (Adds-array_loop item size data_size count (plus p data_size) h))
  where
    mul_suc : (a b : ℕ) → a * suc b ≡ a + a * b
    mul_suc a b = grind arith

Adds-cut : {size : ℕ} {m : Encoder} → Adds size m → Adds (size % 2 ^ 64) m
Adds-cut h = record {
  on_writing = λ s t hs e.
      let (writing, counted, bounded) = h.on_writing s t hs e in (writing, omega arith, bounded);
}

module _ (field : PbField) (p_data count : ℕ) (func : ℕ → Encoder) (is : IsFunc field func) where
  Counts-packed :
      (size : ℕ)
      → Adds size (array_loop func field.data_size count p_data)
      → Counts (pb_encode_varint size >> packed_data field p_data count func size)
  unfolding packed_data
  Counts-packed size h = Counts->> (Counts-varint size) (Counts-sized size _ h)

  Counts-measured :
      (r : Emitted)
      → array_loop func field.data_size count p_data pb_ostream_sizing ≡ r
      → Counts
          (measured r λ size. pb_encode_varint size >> packed_data field p_data count func size)
  unfolding pb_ostream_sizing
  Counts-measured (sent y) at = Counts-packed y.bytes_written (
      Counts-Adds (array_loop func field.data_size count p_data) pb_ostream_sizing y
        (Counts-array_loop func field.data_size count p_data is.counts) refl refl at)
  Counts-measured (failed y) at = Counts-failed (λ s. s)
  Counts-measured fault at = Counts-fault

  Counts-packed_array : Counts (packed_array field p_data count func)
  unfolding packed_array packed_size
  Counts-packed_array = Counts->> (Counts-tag _ _) by_type
    where
      by_type : Counts (
          packed_size field p_data count func
            λ size. pb_encode_varint size >> packed_data field p_data count func size)
      by_type = elim (Bool-cases (ltype field.type == ltype_fixed32)) [
        | inl is32 ↦
            rw (packed_size, is32)
              (Counts-packed (4 * count % 2 ^ 64)
                (Adds-cut (Adds-array_loop func 4 field.data_size count p_data (is.fixed32 is32))))
        | inr not32 ↦ elim (Bool-cases (ltype field.type == ltype_fixed64)) [
          | inl is64 ↦
              rw (packed_size, not32, is64)
                (Counts-packed (8 * count % 2 ^ 64) (
                  Adds-cut (Adds-array_loop func 8 field.data_size count p_data (is.fixed64 is64))))
          | inr not64 ↦ rw (packed_size, not32, not64) (Counts-measured _ refl)
        ]
      ]

  Counts-array_item : (mem : Memory) (p : ℕ) → Counts (array_item mem field func p)
  unfolding array_item
  Counts-array_item mem p =
      Counts->> (Counts-tag_for_field field)
        (Counts-if _ (Counts-loaded (load_pointer p mem) is.counts) (is.counts p))

  pub Counts-encode_array : (mem : Memory) → Counts (encode_array mem field p_data count func)
  unfolding encode_array
  Counts-encode_array mem = Counts-if _ Counts-sent (
      Counts-if _ (Counts-error _) (
        Counts-if _ Counts-packed_array (
          Counts-array_loop (array_item mem field func) field.data_size count p_data
            (Counts-array_item mem))))
