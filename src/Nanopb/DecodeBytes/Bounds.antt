-- ===== src/Nanopb/DecodeBytes/Bounds.antt =====
-- What pb_dec_bytes stores.
use logoguess.Common.{
  ℕ, ◌-◌, ◌+◌, ◌%◌, ◌^◌, ◌<◌, ◌≤◌, ◌≡◌, refl, arith, ltb, ◌==◌, ltb-false→le, le→leb, true, false,
  Bool, ◌∙◌, if◌then◌else◌,
}
use logoguess.Common.{Option, none, some, List, ◌++◌, length, take, drop}
use logoguess.Nanopb.Errors.{size_too_large, bytes_overflow}
use logoguess.Nanopb.IStream.{IStream, Outcome, done, failed, fault, buffer, pb_read, return_error}
use logoguess.Nanopb.IStream.Safe.{IsBuffer, Runs, returns, stops, Advance-refl, Advance-set_error}
use logoguess.Nanopb.IStream.SafeReads.{IsRead, pb_read-Runs}
use logoguess.Nanopb.Wire.Safe.{pb_decode_varint32-Runs}
use logoguess.Nanopb.DecodeScalar.{store_from}
use logoguess.Nanopb.DecodeScalar.SafeFields.{Stores, Stores-error, Stores-if, Stores-from}
use logoguess.Nanopb.Field.{PbField, atype, atype_pointer, bytes_offset}
use logoguess.Nanopb.Allocate.{Realloc, allocate_field}
use logoguess.Nanopb.DecodeString.{put_result, put_bytes}
use logoguess.Nanopb.DecodeString.Terminated.{IsRealloc, HasMemory, put_wide, allocate_field-Runs}
use logoguess.Nanopb.Memory.{to_bytes}
use logoguess.Nanopb.DecodeBytes.{read_array, read_bytes_array, read_static_bytes, pb_dec_bytes}

-- A pb_bytes_array_t: the size that it begins with is that of bytes in the block.
pub record IsBytes (field : PbField) (block : List ℕ) : Type 0 where
  pub size : ℕ
  pub begins : take 4 block ≡ to_bytes 4 size
  pub fits : size + bytes_offset ≤ length block
  pub in_struct : (atype field.type == atype_pointer) ≡ false → length block ≡ field.data_size

abbrev pub with_size : ℕ → List ℕ → List ℕ
with_size size rest = to_bytes 4 size ++ rest

begins_with_size : (size : ℕ) (rest : List ℕ) → take 4 (with_size size rest) ≡ to_bytes 4 size
unfolding to_bytes
begins_with_size size rest = refl

to_bytes_wide : (size : ℕ) → length (to_bytes 4 size) ≡ 4
unfolding to_bytes
to_bytes_wide size = refl

-- Bytes behind the size leave it in place.
put_behind :
    (size : ℕ) (rest bytes : List ℕ)
    → take 4 (take 4 (with_size size rest) ++ bytes) ≡ to_bytes 4 size
unfolding to_bytes
put_behind size rest bytes = refl

read_array-Stores :
    (field : PbField) (size : ℕ) (rest : List ℕ) (s : IStream)
    → size + 4 ≤ length (with_size size rest)
    → ((atype field.type == atype_pointer) ≡ false → length (with_size size rest) ≡ field.data_size)
    → IsBuffer s
    → Stores (IsBytes field) s (read_array size (with_size size rest) s)
unfolding read_array put_bytes
read_array-Stores field size rest s fits in_struct h =
    stored (pb_read buffer size s) (pb_read-Runs buffer size s h)
  where
    dest : List ℕ
    dest = with_size size rest

    stored :
        (o : Outcome (List ℕ))
        → Runs (IsRead buffer size) s o
        → Stores (IsBytes field) s (elim o [
          | done bytes t ↦ put_result (done tt t) (put_bytes bytes_offset bytes dest)
          | failed t ↦ put_result (failed t) (some dest)
          | fault ↦ (fault, none)
        ])
    stored _ (returns {a = bytes} {t} p a) =
        rw (le→leb (4 + length bytes) (length dest) (omega (arith, p.wide))) (record {
          runs = returns tt a;
          holds = record {
            size = size;
            begins = put_behind size rest (bytes ++ drop (4 + length bytes) dest);
            fits = omega (arith, put_wide 4 bytes dest (omega (arith, p.wide)));
            in_struct = λ e. put_wide 4 bytes dest (omega (arith, p.wide)) ∙ in_struct e;
          };
        })
    stored _ (stops {t} a) = record {
      runs = stops a;
      holds = record {
        size = size;
        begins = begins_with_size size rest;
        fits = fits;
        in_struct = in_struct;
      };
    }

pub put_size :
    (size : ℕ) (dest : List ℕ)
    → 4 ≤ length dest
    → put_bytes 0 (to_bytes 4 size) dest
      ≡ some (with_size size (drop (0 + length (to_bytes 4 size)) dest))
unfolding put_bytes
put_size size dest h =
    rw
      (
        put_bytes,
        le→leb (0 + length (to_bytes 4 size)) (length dest) (omega (arith, to_bytes_wide size)),
      )
      refl

read_bytes_array-Stores :
    (field : PbField) (size : ℕ) (dest : List ℕ) (s : IStream)
    → size + 4 ≤ length dest
    → ((atype field.type == atype_pointer) ≡ false → length dest ≡ field.data_size)
    → IsBuffer s
    → Stores (IsBytes field) s (read_bytes_array size dest s)
unfolding read_bytes_array
read_bytes_array-Stores field size dest s fits in_struct h =
    let room : 0 + length (to_bytes 4 size) ≤ length dest = omega (arith, to_bytes_wide size) in
    let wide = put_wide 0 (to_bytes 4 size) dest room in
    rw (read_bytes_array, put_size size dest (omega arith))
      (read_array-Stores field size (drop (0 + length (to_bytes 4 size)) dest) s
        (omega (arith, wide)) (λ e. wide ∙ in_struct e) h)

read_static_bytes-Stores :
    (field : PbField) (size : ℕ) (dest : Option (List ℕ)) (s : IStream)
    → (atype field.type == atype_pointer) ≡ false
    → HasMemory field dest
    → IsBuffer s
    → Stores (IsBytes field) s (read_static_bytes field.data_size size (size + 4) dest s)
unfolding read_static_bytes HasMemory
read_static_bytes-Stores field size dest s e memory h =
    let (block, at, wide) = memory e in
    rw at (
      Stores-if (ltb field.data_size (size + 4))
        (λ _. Stores-error (Advance-set_error bytes_overflow (Advance-refl h)))
        (λ small.
          read_bytes_array-Stores field size block s
            (omega (arith, wide, ltb-false→le field.data_size (size + 4) small)) (λ _. wide) h))

-- pb_dec_bytes behind the size.
pub behind_size-Stores :
    (pb_realloc : Realloc) (field : PbField) (dest : Option (List ℕ)) (size : ℕ) (t : IStream)
    → IsRealloc pb_realloc
    → HasMemory field dest
    → size < 2 ^ 32
    → IsBuffer t
    → let alloc_size : ℕ = (size + bytes_offset) % 2 ^ 64 in
      Stores (IsBytes field) t (
        if ltb (2 ^ 32 - 1) size
        then (return_error bytes_overflow t, none)
        else if ltb alloc_size size
        then (return_error size_too_large t, none)
        else if atype field.type == atype_pointer
        then (store_from
            (allocate_field pb_realloc dest alloc_size 1 t)
            λ block u. read_bytes_array size block u)
        else read_static_bytes field.data_size size alloc_size dest t)
behind_size-Stores pb_realloc field dest size t sized memory hs ht =
    let whole : (size + 4) % 2 ^ 64 ≡ size + 4 = omega arith in
    rw whole (
      Stores-if (ltb (2 ^ 32 - 1) size)
        (λ _. Stores-error (Advance-set_error bytes_overflow (Advance-refl ht)))
        (λ _.
          Stores-if (ltb (size + 4) size)
            (λ _. Stores-error (Advance-set_error size_too_large (Advance-refl ht)))
            (λ _.
              Stores-if (atype field.type == atype_pointer)
                (λ pointer.
                  Stores-from _ (allocate_field-Runs pb_realloc dest (size + 4) t sized ht)
                    λ block u wide hu.
                      read_bytes_array-Stores field size block u (omega arith)
                        (λ e. absurd (no_both _ pointer e)) hu)
                (λ e. read_static_bytes-Stores field size dest t e memory ht))))
  where
    no_both : (b : Bool) → b ≡ true → b ≡ false → ⊥
    no_both b p q = cc (p, q)

-- pb_dec_bytes on any stream over a buffer, for a field in the struct or behind a pointer, if
-- pb_realloc gives a block of the size it is asked for: no access outside the stream's buffer or the
-- field's memory. What is stored, also if the read fails, is a pb_bytes_array_t whose size is that of
-- bytes in its block, which for a field in the struct has `data_size` bytes, and it is stored if true
-- is returned.
pub pb_dec_bytes-Stores :
    (pb_realloc : Realloc) (field : PbField) (dest : Option (List ℕ)) (s : IStream)
    → IsRealloc pb_realloc
    → HasMemory field dest
    → IsBuffer s
    → Stores (IsBytes field) s (pb_dec_bytes pb_realloc field dest s)
unfolding pb_dec_bytes
pb_dec_bytes-Stores pb_realloc field dest s sized memory h =
    Stores-from _ (pb_decode_varint32-Runs s h)
      λ size t hs ht. behind_size-Stores pb_realloc field dest size t sized memory hs ht
