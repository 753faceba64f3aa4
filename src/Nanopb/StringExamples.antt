-- ===== src/Nanopb/StringExamples.antt =====
-- Examples of the theorems about nanopb's allocations and strings.
use logoguess.Common.{
  ℕ, zero, suc, ◌*◌, ◌^◌, ◌≡◌, refl, ap, arith, ltb, ◌==◌, ◌||◌, if◌then◌else◌, replicate, Option,
  some, none, true, false, List, [], ◌∷◌, length,
}
use logoguess.Nanopb.Errors.{invalid_size, size_too_large}
use logoguess.Nanopb.IStream.{return_error}
use logoguess.Nanopb.IStream.Reads.{over}
use logoguess.Nanopb.Allocate.{Realloc, reallocate, allocate_field}
use logoguess.Nanopb.Allocate.Overflow.{allocate_field_lem}
use logoguess.Nanopb.EncodeScalar.{pb_enc_string, pb_enc_bytes}
use logoguess.Nanopb.Encode.Varint.{varint}
use logoguess.Nanopb.DecodeScalar.SafeFields.{Stores}
use logoguess.Nanopb.DecodeString.{pb_dec_string}
use logoguess.Nanopb.DecodeString.Terminated.{
  IsStringField, IsRealloc, HasMemory, pb_dec_string-Stores,
}
use logoguess.Nanopb.RoundTrip.{Refills}
use logoguess.Nanopb.RoundTrip.Substream.{delimited}
use logoguess.Nanopb.RoundTrip.BytesArrays.{pb_enc_bytes-Refills}
use logoguess.Nanopb.DecodeBytes.{pb_dec_bytes}
use logoguess.Nanopb.Memory.{to_bytes}
use logoguess.Nanopb.RoundTrip.Strings.{pb_enc_string-Refills}
use logoguess.Nanopb.Examples.{output, room_for, field_of}

abbrev pub grow : Realloc
grow ptr size = some (replicate size 0)

allocate_field_lem_example : allocate_field grow none 8 2 (over [] 0 none) ≡ (
    if 8 == 0 || 2 == 0
    then return_error invalid_size (over [] 0 none)
    else if ltb (2 * 8) (2 ^ 64)
    then reallocate grow none (2 * 8) (over [] 0 none)
    else return_error size_too_large (over [] 0 none))
allocate_field_lem_example = allocate_field_lem grow none 8 2 (over [] 0 none)

pub grow-IsRealloc : IsRealloc grow
unfolding IsRealloc
grow-IsRealloc ptr size block e = sized size block e
  where
    length-replicate : (n : ℕ) → length {A = ℕ} (replicate n 0) ≡ n
    length-replicate zero = refl
    length-replicate (suc n) = ap suc (length-replicate n)

    sized : (n : ℕ) (bytes : List ℕ) → some (replicate n 0) ≡ some bytes → length bytes ≡ n
    sized n bytes e = cc (e, length-replicate n)

-- Four bytes of a struct.
abbrev memory : Option (List ℕ)
memory = some (9 ∷ 9 ∷ 9 ∷ 9 ∷ [])

memory-HasMemory : HasMemory (field_of 7 4) memory
unfolding HasMemory
memory-HasMemory e = (9 ∷ 9 ∷ 9 ∷ 9 ∷ [], refl, refl)

pb_dec_string-Stores_example :
    Stores
      (IsStringField (field_of 7 4))
      (over (2 ∷ 104 ∷ 105 ∷ []) 3 none)
      (pb_dec_string grow (field_of 7 4) memory (over (2 ∷ 104 ∷ 105 ∷ []) 3 none))
pb_dec_string-Stores_example =
    pb_dec_string-Stores grow (field_of 7 4) memory (over (2 ∷ 104 ∷ 105 ∷ []) 3 none)
      grow-IsRealloc memory-HasMemory
      (record {
        from_buffer = refl;
        covered = omega arith;
        octets = (omega arith, (omega arith, (omega arith, tt)));
      })

pb_enc_string-Refills_example :
    Refills
      (pb_enc_string (field_of 7 4) (some (104 ∷ 105 ∷ 0 ∷ 7 ∷ [])))
      (pb_dec_string grow (field_of 7 4) memory)
      (delimited (104 ∷ 105 ∷ []))
      (104 ∷ 105 ∷ 0 ∷ 9 ∷ [])
      output
      []
      0
      none
unfolding varint
pb_enc_string-Refills_example =
    pb_enc_string-Refills grow (field_of 7 4) (104 ∷ 105 ∷ []) (7 ∷ []) (9 ∷ 9 ∷ 9 ∷ 9 ∷ []) output
      [] 0 none refl (omega arith, (omega arith, tt)) (omega arith) (omega arith) refl
      (room_for 3 (omega arith))

-- Eight bytes of a struct.
abbrev eight : List ℕ
eight = replicate 8 9

pb_enc_bytes-Refills_example :
    Refills
      (pb_enc_bytes (field_of 6 8) (some (record { size = 2; bytes = 104 ∷ 105 ∷ 7 ∷ [] })))
      (pb_dec_bytes grow (field_of 6 8) (some eight))
      (delimited (104 ∷ 105 ∷ []))
      (2 ∷ 0 ∷ 0 ∷ 0 ∷ 104 ∷ 105 ∷ 9 ∷ 9 ∷ [])
      output
      []
      0
      none
unfolding varint to_bytes
pb_enc_bytes-Refills_example =
    pb_enc_bytes-Refills grow (field_of 6 8) (104 ∷ 105 ∷ []) (7 ∷ []) eight (some eight) output []
      0 none (λ _. refl) (λ e. absurd (no e)) (λ _. omega arith) (omega arith) (omega arith)
      (room_for 3 (omega arith))
  where
    no : false ≡ true → ⊥
    no e = cc e
