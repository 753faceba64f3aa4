-- ===== src/Nanopb/DecodeMessage/Safe/Values.antt =====
-- The functions of PB_DECODERS on a stream over a buffer: each reads a byte at least.
use logoguess.Common.{ℕ, arith}
use logoguess.Common.{Option, List}
use logoguess.Nanopb.Field.{PbField}
use logoguess.Nanopb.IStream.{IStream, Outcome}
use logoguess.Nanopb.IStream.Safe.{
  IsBuffer, Advance-IsBuffer, Advance-refl, Advance-trans, Runs, returns, stops,
}
use logoguess.Nanopb.Wire.Consumes.{
  Consumes, takes, ends, Consumes-bind, pb_decode_varint32-Consumes, pb_decode_varint-Consumes,
  pb_read-Consumes,
}
use logoguess.Nanopb.DecodeScalar.{
  Stored, store_from, pb_decode_svarint, pb_decode_fixed32, pb_decode_fixed64, pb_dec_bool,
  pb_dec_varint, pb_dec_uvarint, pb_dec_svarint, pb_dec_fixed32, pb_dec_fixed64,
  pb_dec_fixed_length_bytes,
}
use logoguess.Nanopb.DecodeScalar.SafeFields.{
  Stores, Stores-done, clamp_signed-Stores, clamp_unsigned-Stores, fixed_length-Stores,
}
use logoguess.Nanopb.DecodeString.{pb_dec_string}
use logoguess.Nanopb.DecodeString.Terminated.{IsRealloc, HasMemory, string_rest-Stores}
use logoguess.Nanopb.DecodeBytes.{pb_dec_bytes}
use logoguess.Nanopb.DecodeBytes.Bounds.{behind_size-Stores}
use logoguess.Nanopb.Allocate.{Realloc}

-- What is read after a value that was read.
from_Consumes :
    {A B : Type 0} {P : A → Type 0} {Q : B → Type 0} {s : IStream} {o : Outcome A}
    (f : A → IStream → Stored B)
    → Consumes P s o
    → ((a : A) (t : IStream) → P a → IsBuffer t → Stores Q t (f a t))
    → Consumes (λ _. Unit {0}) s ((store_from o f).0)
from_Consumes {s = s} f (takes {a} {t} p b less) k =
    go ((f a t).0) (k a t p (Advance-IsBuffer b)).runs
  where
    go :
        {R : Unit {0} → Type 0} (o : Outcome (Unit {0})) → Runs R t o → Consumes (λ _. Unit {0}) s o
    go _ (returns q c) = takes tt (Advance-trans b c) (omega (arith, less, c.shrinks))
    go _ (stops c) = ends (Advance-trans b c)
from_Consumes f (ends b) k = ends b

pub bool-Consumes : (s : IStream) → IsBuffer s → Consumes (λ _. Unit {0}) s ((pb_dec_bool s).0)
unfolding pb_dec_bool
bool-Consumes s h =
    from_Consumes {Q = λ _. Unit {0}} _ (pb_decode_varint32-Consumes s h)
      λ v t _ ht. Stores-done ht tt

pub varint-Consumes :
    (field : PbField) (s : IStream)
    → IsBuffer s
    → Consumes (λ _. Unit {0}) s ((pb_dec_varint field s).0)
unfolding pb_dec_varint
varint-Consumes field s h =
    from_Consumes _ (pb_decode_varint-Consumes s h)
      λ v t _ ht. clamp_signed-Stores field.data_size _ t ht

pub uvarint-Consumes :
    (field : PbField) (s : IStream)
    → IsBuffer s
    → Consumes (λ _. Unit {0}) s ((pb_dec_uvarint field s).0)
unfolding pb_dec_uvarint
uvarint-Consumes field s h =
    from_Consumes _ (pb_decode_varint-Consumes s h)
      λ v t _ ht. clamp_unsigned-Stores field.data_size v t ht

pub svarint-Consumes :
    (field : PbField) (s : IStream)
    → IsBuffer s
    → Consumes (λ _. Unit {0}) s ((pb_dec_svarint field s).0)
unfolding pb_dec_svarint pb_decode_svarint
svarint-Consumes field s h =
    from_Consumes _
      (Consumes-bind {Q = λ _. Unit {0}} (pb_decode_varint-Consumes s h)
        λ v t _ ht. returns tt (Advance-refl ht))
      λ i t _ ht. clamp_signed-Stores field.data_size i t ht

pub fixed32-Consumes :
    (s : IStream) → IsBuffer s → Consumes (λ _. Unit {0}) s ((pb_dec_fixed32 s).0)
unfolding pb_dec_fixed32 pb_decode_fixed32
fixed32-Consumes s h =
    from_Consumes {Q = λ _. Unit {0}} _
      (Consumes-bind {Q = λ _. Unit {0}} (pb_read-Consumes 3 s h)
        λ v t _ ht. returns tt (Advance-refl ht))
      λ v t _ ht. Stores-done ht tt

pub fixed64-Consumes :
    (s : IStream) → IsBuffer s → Consumes (λ _. Unit {0}) s ((pb_dec_fixed64 s).0)
unfolding pb_dec_fixed64 pb_decode_fixed64
fixed64-Consumes s h =
    from_Consumes {Q = λ _. Unit {0}} _
      (Consumes-bind {Q = λ _. Unit {0}} (pb_read-Consumes 7 s h)
        λ v t _ ht. returns tt (Advance-refl ht))
      λ v t _ ht. Stores-done ht tt

pub fixed_length-Consumes :
    (field : PbField) (s : IStream)
    → IsBuffer s
    → Consumes (λ _. Unit {0}) s ((pb_dec_fixed_length_bytes field s).0)
unfolding pb_dec_fixed_length_bytes
fixed_length-Consumes field s h =
    from_Consumes _ (pb_decode_varint32-Consumes s h)
      λ size t _ ht. fixed_length-Stores field size t ht

module _ (pb_realloc : Realloc) (field : PbField) (dest : Option (List ℕ))
    (sized : IsRealloc pb_realloc) (memory : HasMemory field dest) where
  pub string-Consumes :
      (s : IStream)
      → IsBuffer s
      → Consumes (λ _. Unit {0}) s ((pb_dec_string pb_realloc field dest s).0)
  unfolding pb_dec_string
  string-Consumes s h =
      from_Consumes _ (pb_decode_varint32-Consumes s h)
        λ size t hs ht. string_rest-Stores pb_realloc field dest size t sized memory hs ht

  pub bytes-Consumes :
      (s : IStream)
      → IsBuffer s
      → Consumes (λ _. Unit {0}) s ((pb_dec_bytes pb_realloc field dest s).0)
  unfolding pb_dec_bytes
  bytes-Consumes s h =
      from_Consumes _ (pb_decode_varint32-Consumes s h)
        λ size t hs ht. behind_size-Stores pb_realloc field dest size t sized memory hs ht
