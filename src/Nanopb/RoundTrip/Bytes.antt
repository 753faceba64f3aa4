-- ===== src/Nanopb/RoundTrip/Bytes.antt =====
-- The pb_enc_ functions of bools, fixed-length bytes, bytes and strings.
use mathlib.Core.Path.{subst}
use logoguess.Common.{
  ℕ, zero, suc, ◌+◌, ◌-◌, ◌%◌, ◌^◌, ◌<◌, ◌≤◌, ◌≡◌, refl, sym, ap, arith, ltb, ◌==◌, not,
  if◌then◌else◌, Bool, true, false, ◌||◌, ◌&&◌, ge→ltb,
}
use logoguess.Common.{
  List, [], ◌∷◌, ◌++◌, length, All, Option, some, none, replicate, append_assoc, length-append,
}
use native.Mathlib.Nat.{add_assoc}
use logoguess.Nanopb.Errors.{PbError, incorrect_fixed_length}
use logoguess.Nanopb.Field.{PbField, atype, atype_pointer, atype_static, bytes_offset}
use logoguess.Nanopb.IStream.{done, return_error, buffer, pb_read}
use logoguess.Nanopb.IStream.Reads.{over, Reads, pb_read-Reads}
use logoguess.Nanopb.OStream.{OStream, sent}
use logoguess.Nanopb.OStream.Room.{HasRoom, pushed, Emits, Emits-then, pb_write-Emits_prefix}
use logoguess.Nanopb.Encode.{pb_encode_varint, pb_encode_string}
use logoguess.Nanopb.Encode.Varint.{varint64, varint_one, pb_encode_varint-Emits}
use logoguess.Nanopb.EncodeScalar.{
  safe_read_bool, pb_enc_bool, string_length, pb_enc_string, pb_enc_bytes,
  pb_enc_fixed_length_bytes,
}
use logoguess.Nanopb.Wire.{pb_decode_varint32}
use logoguess.Nanopb.Wire.Varint32.{pb_decode_varint32-Reads}
use logoguess.Nanopb.DecodeScalar.{Stored, store_from, pb_dec_bool, pb_dec_fixed_length_bytes}
use logoguess.Nanopb.RoundTrip.{Refills}
use logoguess.Nanopb.RoundTrip.Substream.{delimited, pb_encode_string-Emits}

abbrev bool_byte : Bool → ℕ
bool_byte b = if b then 1 else 0

bool_value : (b : Bool) → not (bool_byte b == 0) ≡ b
bool_value true = refl
bool_value false = refl

bool_small : (b : Bool) → bool_byte b < 2
bool_small true = omega arith
bool_small false = omega arith

-- pb_enc_bool writes, to a stream with room for it, whether a byte of a bool is not zero, and
-- pb_dec_bool stores that bool again and returns true.
pb_enc_bool-Refills :
    (src : List ℕ) (s : OStream) (mem : List ℕ) (n : ℕ) (e : Option PbError)
    → HasRoom 1 s
    → Refills
        (pb_enc_bool src)
        pb_dec_bool
        (bool_byte (safe_read_bool src) ∷ [])
        (safe_read_bool src)
        s
        mem
        n
        e
unfolding pb_enc_bool pb_dec_bool
pb_enc_bool-Refills src s mem n e room =
    let b = safe_read_bool src in
    let small = bool_small b in
    let one = varint_one 9 (bool_byte b) (omega arith) in
    (
      subst (λ t. HasRoom (length t) s → pb_encode_varint (bool_byte b) s ≡ sent (pushed t s)) one
          (pb_encode_varint-Emits (bool_byte b) (omega arith) s) room,
      rw (
        subst (λ t. Reads pb_decode_varint32 t (bool_byte b)) one
            (pb_decode_varint32-Reads (bool_byte b) (omega arith)) mem n e,
        bool_value b,
      ),
    )

pb_encode_string-Emits_prefix :
    (body behind : List ℕ)
    → length body < 2 ^ 64
    → Emits (pb_encode_string (body ++ behind) (length body)) (delimited body)
unfolding pb_encode_string
pb_encode_string-Emits_prefix body behind h =
    Emits-then (varint64 (length body)) body (pb_encode_varint-Emits (length body) h)
      (pb_write-Emits_prefix body behind)

string_length-terminated :
    (max : ℕ) (body behind : List ℕ)
    → All (λ b. 0 < b) body
    → length body ≤ max
    → string_length max (body ++ 0 ∷ behind) ≡ some (length body)
unfolding string_length
string_length-terminated zero [] behind h fits = refl
string_length-terminated zero (b ∷ body) behind h fits = absurd (omega arith)
string_length-terminated (suc max) [] behind h fits = refl
string_length-terminated (suc max) (b ∷ body) behind h fits =
    rw (nonzero b h.0, string_length-terminated max body behind h.1 (omega arith))
  where
    nonzero : (b : ℕ) → 0 < b → (b == 0) ≡ false
    nonzero b h = ground arith

-- A NUL-terminated string that fits its field, or stands behind a pointer: pb_enc_string writes its
-- length and its bytes without the NUL, to a stream with room for them.
pub pb_enc_string-delimited :
    (field : PbField) (body behind : List ℕ) (s : OStream)
    → All (λ b. 0 < b) body
    → length body ≤ (if atype field.type == atype_pointer then 2 ^ 64 - 1 else field.data_size)
    → length body < 2 ^ 64
    → HasRoom (length (delimited body)) s
    → pb_enc_string field (some (body ++ 0 ∷ behind)) s ≡ sent (pushed (delimited body) s)
unfolding pb_enc_string
pb_enc_string-delimited field body behind s h fits small room =
    rw (pb_enc_string, string_length-terminated _ body behind h fits)
      (pb_encode_string-Emits_prefix body (0 ∷ behind) small s room)

-- A bytes array that fits its field: pb_enc_bytes writes its size and its bytes, to a stream with
-- room for them.
pub pb_enc_bytes-delimited :
    (field : PbField) (body behind : List ℕ) (s : OStream)
    → length body < 2 ^ 32
    → (atype field.type ≡ atype_static → length body + bytes_offset ≤ field.data_size)
    → HasRoom (length (delimited body)) s
    → pb_enc_bytes field (some (record { size = length body; bytes = body ++ behind })) s
      ≡ sent (pushed (delimited body) s)
unfolding pb_enc_bytes
pb_enc_bytes-delimited field body behind s h fits room =
    rw (accepted (length body) field.data_size (atype field.type) h fits, pb_enc_bytes)
      (pb_encode_string-Emits_prefix body behind (omega arith) s room)
  where
    accepted :
        (size data_size a : ℕ)
        → size < 2 ^ 32
        → (a ≡ atype_static → size + bytes_offset ≤ data_size)
        → (ltb ((size + bytes_offset) % 2 ^ 64) size
            || a == atype_static && ltb data_size ((size + bytes_offset) % 2 ^ 64))
          ≡ false
    accepted size data_size a h fits = ground arith

-- What pb_dec_fixed_length_bytes does once it has read a matching length.
take_array :
    (body mem : List ℕ) (n : ℕ) (e : Option PbError)
    → ◌≡◌ {A = Stored (List ℕ)}
        (if length body == 0
          then (done tt (over (body ++ mem) (length body + n) e), some (replicate (length body) 0))
          else if not (length body == length body)
          then (return_error incorrect_fixed_length (over (body ++ mem) (length body + n) e), none)
          else store_from
              (pb_read buffer (length body) (over (body ++ mem) (length body + n) e))
              λ bytes t. (done tt t, some bytes))
        (done tt (over mem n e), some body)
take_array [] mem n e = ap (λ (t : ℕ). (done tt (over mem t e), some [])) (omega arith)
take_array (b ∷ body) mem n e = ground (arith, pb_read-Reads buffer (b ∷ body) mem n e)

-- An array of as many bytes as its field has: pb_enc_fixed_length_bytes writes its length and its
-- bytes to a stream with room for them, and pb_dec_fixed_length_bytes stores them again and returns
-- true.
pub pb_enc_fixed_length_bytes-Refills :
    (field : PbField) (body : List ℕ) (s : OStream) (mem : List ℕ) (n : ℕ) (e : Option PbError)
    → length body ≡ field.data_size
    → length body < 2 ^ 32
    → HasRoom (length (delimited body)) s
    → Refills
        (pb_enc_fixed_length_bytes field body)
        (pb_dec_fixed_length_bytes field)
        (delimited body)
        body
        s
        mem
        n
        e
unfolding pb_enc_fixed_length_bytes pb_dec_fixed_length_bytes
pb_enc_fixed_length_bytes-Refills field body s mem n e wide h room = (
  rw (sym wide) (pb_encode_string-Emits body (omega arith) s room),
  rw
      (
        append_assoc,
        length-append,
        add_assoc,
        pb_decode_varint32-Reads (length body) h (body ++ mem) (length body + n) e,
        ge→ltb (2 ^ 32 - 1) (length body) (omega arith),
        sym wide,
      )
      (take_array body mem n e),
)
