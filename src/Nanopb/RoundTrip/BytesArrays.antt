-- ===== src/Nanopb/RoundTrip/BytesArrays.antt =====
-- pb_enc_bytes and pb_dec_bytes.
use native.Mathlib.Nat.{add_assoc, mod-eq_of_lt}
use logoguess.Common.{
  ℕ, suc, ap, ◌+◌, ◌-◌, ◌%◌, ◌^◌, ◌<◌, ◌≤◌, ◌≡◌, refl, arith, ◌==◌, true, false, ge→ltb, le→leb,
  lt→leb, Bool-cases, inl, inr, ◌*◌,
}
use logoguess.Common.{
  List, ◌++◌, length, drop, Option, some, append_assoc, length-append, length-drop,
}
use logoguess.Nanopb.Errors.{PbError}
use logoguess.Nanopb.Field.{PbField, atype, atype_pointer}
use logoguess.Nanopb.IStream.{IStream, done, buffer}
use logoguess.Nanopb.IStream.Reads.{over, pb_read-Reads}
use logoguess.Nanopb.OStream.{OStream}
use logoguess.Nanopb.OStream.Room.{HasRoom}
use logoguess.Nanopb.EncodeScalar.{pb_enc_bytes}
use logoguess.Nanopb.Wire.Varint32.{pb_decode_varint32-Reads}
use logoguess.Nanopb.Allocate.{Realloc, allocate_field, reallocate}
use logoguess.Nanopb.DecodeString.{put_bytes}
use logoguess.Nanopb.Memory.{to_bytes}
use logoguess.Nanopb.DecodeBytes.{read_array, read_bytes_array, pb_dec_bytes}
use logoguess.Nanopb.DecodeBytes.Bounds.{put_size}
use logoguess.Nanopb.RoundTrip.{Refills}
use logoguess.Nanopb.RoundTrip.Substream.{delimited}
use logoguess.Nanopb.RoundTrip.Bytes.{pb_enc_bytes-delimited}

-- A pb_bytes_array_t of the bytes, in a block that has had another content.
abbrev pub bytes_array : List ℕ → List ℕ → List ℕ
bytes_array body block = to_bytes 4 (length body) ++ (body ++ drop (length body) (drop 4 block))

put_body :
    (size : ℕ) (body rest : List ℕ)
    → length body ≤ length rest
    → put_bytes 4 body (to_bytes 4 size ++ rest)
      ≡ some (to_bytes 4 size ++ (body ++ drop (length body) rest))
unfolding put_bytes to_bytes
put_body size body rest h =
    rw (put_bytes, le→leb (4 + length body) (length (to_bytes 4 size ++ rest)) (omega arith))
      (ap (λ d. some (to_bytes 4 size ++ (body ++ d))) (drop_word (length body)))
  where
    four : (k : ℕ) → 4 + k ≡ suc (suc (suc (suc k)))
    four k = omega arith

    drop_word : (k : ℕ) → drop (4 + k) (to_bytes 4 size ++ rest) ≡ drop k rest
    drop_word k = ap (λ (j : ℕ). drop j (to_bytes 4 size ++ rest)) (four k)

read_bytes_array_lem :
    (body block mem : List ℕ) (n : ℕ) (e : Option PbError)
    → length body + 4 ≤ length block
    → read_bytes_array (length body) block (over (body ++ mem) (length body + n) e)
      ≡ (done tt (over mem n e), some (bytes_array body block))
unfolding read_bytes_array read_array to_bytes
read_bytes_array_lem body block mem n e fits =
    rw
      (
        read_bytes_array,
        put_size (length body) block (omega arith),
        read_array,
        pb_read-Reads buffer body mem n e,
        put_body (length body) body (drop 4 block) (omega (arith, length-drop 4 block)),
      )
      refl

allocate_field_gives :
    (pb_realloc : Realloc) (dest : Option (List ℕ)) (block : List ℕ) (size : ℕ) (t : IStream)
    → pb_realloc dest size ≡ some block
    → 0 < size
    → size < 2 ^ 32
    → allocate_field pb_realloc dest size 1 t ≡ done block t
unfolding allocate_field reallocate
allocate_field_gives pb_realloc dest block size t given positive small =
    let whole : 1 * size % 2 ^ 64 ≡ size = omega arith in
    rw (allocate_field, nonzero size positive, lt→leb size (2 ^ 32) small, whole, reallocate, given)
      refl
  where
    nonzero : (m : ℕ) → 0 < m → (m == 0) ≡ false
    nonzero m h = ground arith

-- A pb_bytes_array_t of fewer than 2 ^ 32 - 4 bytes, for a field in the struct which it fits, or
-- behind a pointer, where pb_realloc gives a block for it: pb_enc_bytes writes its size and its
-- bytes, to a stream with room for them, and pb_dec_bytes stores the size and the bytes at the front
-- of the field or of the block, keeps what is behind, and returns true.
pub pb_enc_bytes-Refills :
    (pb_realloc : Realloc) (field : PbField) (body behind block : List ℕ) (dest : Option (List ℕ))
    (s : OStream) (mem : List ℕ) (n : ℕ) (e : Option PbError)
    → ((atype field.type == atype_pointer) ≡ false → dest ≡ some block)
    → ((atype field.type == atype_pointer) ≡ true → pb_realloc dest (length body + 4) ≡ some block)
    → ((atype field.type == atype_pointer) ≡ false → length body + 4 ≤ field.data_size)
    → length body + 4 ≤ length block
    → length body + 4 < 2 ^ 32
    → HasRoom (length (delimited body)) s
    → Refills
        (pb_enc_bytes field (some (record { size = length body; bytes = body ++ behind })))
        (pb_dec_bytes pb_realloc field dest)
        (delimited body)
        (bytes_array body block)
        s
        mem
        n
        e
unfolding pb_dec_bytes
pb_enc_bytes-Refills pb_realloc field body behind block dest s mem n e in_struct given fits wide
      small room =
    (
      pb_enc_bytes-delimited field body behind s (omega arith) (λ static. fits (rw static refl))
          room,
      rw
          (
            append_assoc,
            length-append,
            add_assoc,
            pb_decode_varint32-Reads (length body) (omega arith) (body ++ mem) (length body + n) e,
            ge→ltb (2 ^ 32 - 1) (length body) (omega arith),
            whole,
            ge→ltb (length body + 4) (length body) (omega arith),
          )
          (elim (Bool-cases (atype field.type == atype_pointer)) [
            | inl pointer ↦
                rw
                  (
                    pointer,
                    allocate_field_gives pb_realloc dest block (length body + 4)
                        (over (body ++ mem) (length body + n) e) (given pointer) (omega arith)
                        small,
                  )
                  (read_bytes_array_lem body block mem n e wide)
            | inr static ↦
                rw
                  (static, ge→ltb field.data_size (length body + 4) (fits static), in_struct static)
                  (read_bytes_array_lem body block mem n e wide)
          ]),
    )
  where
    whole : (length body + 4) % 2 ^ 64 ≡ length body + 4
    whole = mod-eq_of_lt (omega arith)
