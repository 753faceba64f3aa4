-- ===== src/Nanopb/DecodeScalar/SafeFields.antt =====
-- The pb_dec_ functions on a stream over a buffer: they read nothing outside it, they store a value
-- of the field's type, and one that returns true has stored it.
use native.Mathlib.Nat.{mod-lt, one-le-pow}
use mathlib.Core.Path.{subst}
use mathlib.Core.Option.{some-injective}
use logoguess.Common.{sym, ◌∙◌, zero, suc, ℕ, ◌-◌, ◌%◌, ◌^◌, ◌<◌, ◌≡◌, refl, ap, arith}
use logoguess.Common.{
  List, length, All, Option, some, none, ltb, ◌==◌, not, if◌then◌else◌, Bool, true, false,
  replicate,
}
use logoguess.Common.Int.{ℤ, to_signed, to_unsigned, int_eq, IsInt}
use logoguess.Nanopb.Errors.{
  invalid_data_size, integer_too_large, bytes_overflow, incorrect_fixed_length,
}
use logoguess.Nanopb.IStream.{IStream, Outcome, done, failed, buffer, return_error, pb_read}
use logoguess.Nanopb.IStream.Safe.{
  IsByte, IsBuffer, Advance, Advance-set_error, Advance-refl, Advance-IsBuffer, Runs, returns,
  stops, Runs-error, Runs-from, Runs-if,
}
use logoguess.Nanopb.IStream.SafeReads.{pb_read-Runs}
use logoguess.Nanopb.Wire.Safe.{pb_decode_varint-Runs, pb_decode_varint32-Runs}
use logoguess.Nanopb.Field.{PbField}
use logoguess.Nanopb.DecodeScalar.{Stored, store_from, pb_dec_bool}
use logoguess.Nanopb.DecodeScalar.{
  int_width, clamp_signed, clamp_unsigned, pb_dec_varint, pb_dec_uvarint,
}
use logoguess.Nanopb.DecodeScalar.{
  pb_dec_svarint, pb_dec_fixed32, pb_dec_fixed64, pb_dec_fixed_length_bytes,
}
use logoguess.Nanopb.DecodeScalar.Safe.{
  to_signed-IsInt, pb_decode_svarint-Runs, pb_decode_fixed32-Runs, pb_decode_fixed64-Runs,
}

abbrev IsStored : {A : Type 0} → Option A → Type 0
IsStored none = ⊥
IsStored (some a) = Unit {0}

abbrev pub Holds : {A : Type 0} → (A → Type 0) → Option A → Type 0
Holds P none = Unit {0}
Holds P (some a) = P a

-- What `d` returns runs, what it stored satisfies `P`, and it has stored something if it returned
-- true.
pub record Stores {A : Type 0} (P : A → Type 0) (s : IStream) (r : Stored A) : Type 0 where
  pub runs : Runs (λ _. IsStored r.1) s r.0
  pub holds : Holds P r.1

module _ {A : Type 0} {P : A → Type 0} where
  pub Stores-error : {s t : IStream} → Advance s t → Stores P s (failed t, none)
  Stores-error a = record { runs = stops a; holds = tt }

  pub Stores-done : {s : IStream} {a : A} → IsBuffer s → P a → Stores P s (done tt s, some a)
  Stores-done h p = record { runs = returns tt (Advance-refl h); holds = p }

  pub Stores-if :
      (b : Bool) {s : IStream} {x y : Stored A}
      → (b ≡ true → Stores P s x)
      → (b ≡ false → Stores P s y)
      → Stores P s (if b then x else y)
  Stores-if true p q = p refl
  Stores-if false p q = q refl

  Stores-option :
      {X : Type 0} (o : Option X) {s : IStream} {x : Stored A} (g : X → Stored A)
      → (o ≡ none → Stores P s x)
      → ((a : X) → o ≡ some a → Stores P s (g a))
      → Stores P s (elim o [ none ↦ x | some a ↦ g a ])
  Stores-option none g p q = p refl
  Stores-option (some a) g p q = q a refl

pub Stores-from :
    {A B : Type 0} {P : A → Type 0} {Q : B → Type 0} {s : IStream} {o : Outcome A}
    (f : A → IStream → Stored B)
    → Runs P s o
    → ((a : A) (t : IStream) → P a → IsBuffer t → Stores Q t (f a t))
    → Stores Q s (store_from o f)
Stores-from f (returns {a} {t} p b) k =
    let r = k a t p (Advance-IsBuffer b) in record { runs = Runs-from b r.runs; holds = r.holds }
Stores-from f (stops b) k = record { runs = stops b; holds = tt }

-- The values that a signed field of `size` bytes holds.
abbrev InSigned : ℕ → ℤ → Type 0
InSigned size i = (w : ℕ) → int_width size ≡ some w → IsInt w i

abbrev InUnsigned : ℕ → ℕ → Type 0
InUnsigned size v = (w : ℕ) → int_width size ≡ some w → v < 2 ^ w

int_width_pos : (size w : ℕ) → int_width size ≡ some w → 0 < w
unfolding int_width
int_width_pos size w e = ground arith

pub clamp_signed-Stores :
    (size : ℕ) (i : ℤ) (s : IStream) → IsBuffer s → Stores (InSigned size) s (clamp_signed size i s)
unfolding clamp_signed
clamp_signed-Stores size i s h =
    Stores-option (int_width size) _
      (λ bad. Stores-error (Advance-set_error invalid_data_size (Advance-refl h)))
      (λ w e. record {
        runs =
            Runs-if (int_eq (to_signed w (to_unsigned 64 i)) i) (λ _. returns tt (Advance-refl h))
              (λ _. Runs-error integer_too_large h);
        holds = λ w' e'.
            subst (λ t. IsInt t (to_signed w (to_unsigned 64 i))) (some-injective w w' (sym e ∙ e'))
              (to_signed-IsInt w (to_unsigned 64 i) (int_width_pos size w e));
      })

pub clamp_unsigned-Stores :
    (size v : ℕ) (s : IStream) → IsBuffer s → Stores (InUnsigned size) s (clamp_unsigned size v s)
unfolding clamp_unsigned
clamp_unsigned-Stores size v s h =
    Stores-option (int_width size) _
      (λ bad. Stores-error (Advance-set_error invalid_data_size (Advance-refl h)))
      (λ w e. record {
        runs =
            Runs-if (v % 2 ^ w == v) (λ _. returns tt (Advance-refl h))
              (λ _. Runs-error integer_too_large h);
        holds = λ w' e'. ground (arith, mod-lt v {m = 2 ^ w}, one-le-pow w 2);
      })

pb_dec_bool-Stores : (s : IStream) → IsBuffer s → Stores (λ _. Unit {0}) s (pb_dec_bool s)
unfolding pb_dec_bool
pb_dec_bool-Stores s h = Stores-from _ (pb_decode_varint32-Runs s h) λ v t hv ht. Stores-done ht tt

pb_dec_fixed32-Stores : (s : IStream) → IsBuffer s → Stores (λ v. v < 2 ^ 32) s (pb_dec_fixed32 s)
unfolding pb_dec_fixed32
pb_dec_fixed32-Stores s h =
    Stores-from _ (pb_decode_fixed32-Runs s h) λ v t hv ht. Stores-done ht hv

pb_dec_fixed64-Stores : (s : IStream) → IsBuffer s → Stores (λ v. v < 2 ^ 64) s (pb_dec_fixed64 s)
unfolding pb_dec_fixed64
pb_dec_fixed64-Stores s h =
    Stores-from _ (pb_decode_fixed64-Runs s h) λ v t hv ht. Stores-done ht hv

Stores-weaken :
    {A : Type 0} {P Q : A → Type 0} {s : IStream} {r : Stored A}
    → ((a : A) → P a → Q a)
    → Stores P s r
    → Stores Q s r
Stores-weaken {A = A} {P = P} {Q = Q} f st = record { runs = st.runs; holds = widen _ st.holds }
  where
    widen : (o : Option A) → Holds P o → Holds Q o
    widen none h = h
    widen (some a) h = f a h

dec_varint-Stores :
    (field : PbField) (s : IStream)
    → IsBuffer s
    → Stores (InSigned field.data_size) s (pb_dec_varint field s)
unfolding pb_dec_varint
dec_varint-Stores field s h =
    Stores-from _ (pb_decode_varint-Runs s h)
      λ v t hv ht. clamp_signed-Stores field.data_size _ t ht

dec_uvarint-Stores :
    (field : PbField) (s : IStream)
    → IsBuffer s
    → Stores (InUnsigned field.data_size) s (pb_dec_uvarint field s)
unfolding pb_dec_uvarint
dec_uvarint-Stores field s h =
    Stores-from _ (pb_decode_varint-Runs s h)
      λ v t hv ht. clamp_unsigned-Stores field.data_size v t ht

dec_svarint-Stores :
    (field : PbField) (s : IStream)
    → IsBuffer s
    → Stores (InSigned field.data_size) s (pb_dec_svarint field s)
unfolding pb_dec_svarint
dec_svarint-Stores field s h =
    Stores-from _ (pb_decode_svarint-Runs s h)
      λ i t hi ht. clamp_signed-Stores field.data_size i t ht

-- pb_dec_varint, pb_dec_uvarint and pb_dec_svarint of a field of eight, four, two or one bytes, on
-- any stream over a buffer: no access outside the buffer, only values of the field's type are
-- stored, and one is stored if true is returned.
pub integer_fields-Stores :
    (field : PbField) (w : ℕ) (s : IStream)
    → IsBuffer s
    → int_width field.data_size ≡ some w
    → Stores (IsInt w) s (pb_dec_varint field s)
      × Stores (λ v. v < 2 ^ w) s (pb_dec_uvarint field s)
      × Stores (IsInt w) s (pb_dec_svarint field s)
integer_fields-Stores field w s h hw = (
  Stores-weaken (λ i f. f w hw) (dec_varint-Stores field s h),
  Stores-weaken (λ v f. f w hw) (dec_uvarint-Stores field s h),
  Stores-weaken (λ i f. f w hw) (dec_svarint-Stores field s h),
)

-- An array of `size` bytes.
abbrev pub IsArray : ℕ → List ℕ → Type 0
IsArray size bytes = (length bytes ≡ size) × All IsByte bytes

zeros-IsArray : (size : ℕ) → IsArray size (replicate size 0)
zeros-IsArray zero = (refl, tt)
zeros-IsArray (suc size) =
    let (wide, octets) = zeros-IsArray size in (ap suc wide, (omega arith, octets))

-- pb_dec_fixed_length_bytes behind the length.
pub fixed_length-Stores :
    (field : PbField) (size : ℕ) (t : IStream)
    → IsBuffer t
    → Stores (IsArray field.data_size) t (
        if ltb (2 ^ 32 - 1) size
        then (return_error bytes_overflow t, none)
        else if size == 0
        then (done tt t, some (replicate field.data_size 0))
        else if not (size == field.data_size)
        then (return_error incorrect_fixed_length t, none)
        else store_from (pb_read buffer field.data_size t) λ bytes u. (done tt u, some bytes))
fixed_length-Stores field size t ht =
    Stores-if (ltb (2 ^ 32 - 1) size)
      (λ _. Stores-error (Advance-set_error bytes_overflow (Advance-refl ht)))
      (λ _.
        Stores-if (size == 0) (λ _. Stores-done ht (zeros-IsArray field.data_size))
          (λ _.
            Stores-if (not (size == field.data_size))
              (λ _. Stores-error (Advance-set_error incorrect_fixed_length (Advance-refl ht)))
              (λ _.
                Stores-from _ (pb_read-Runs buffer field.data_size t ht)
                  λ bytes u hb hu. Stores-done hu (hb.wide, hb.octets))))

-- pb_dec_fixed_length_bytes on any stream over a buffer: no access outside the buffer, nothing but
-- `data_size` bytes is stored, and they are if true is returned.
pub pb_dec_fixed_length_bytes-Stores :
    (field : PbField) (s : IStream)
    → IsBuffer s
    → Stores (IsArray field.data_size) s (pb_dec_fixed_length_bytes field s)
unfolding pb_dec_fixed_length_bytes
pb_dec_fixed_length_bytes-Stores field s h =
    Stores-from _ (pb_decode_varint32-Runs s h) λ size t hs ht. fixed_length-Stores field size t ht
