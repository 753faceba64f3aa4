-- ===== src/Nanopb/RoundTrip/Strings.antt =====
-- pb_enc_string and pb_dec_string.
use native.Mathlib.Nat.{add_assoc, mod-eq_of_lt}
use logoguess.Common.{ℕ, ◌+◌, ◌%◌, ◌^◌, ◌<◌, ◌≡◌, refl, ap, ◌∙◌, arith, ◌==◌, false, ge→ltb, le→leb}
use logoguess.Common.{
  List, [], ◌∷◌, ◌++◌, length, drop, All, Option, some, append_assoc, length-append,
}
use logoguess.Nanopb.Errors.{PbError}
use logoguess.Nanopb.Field.{PbField, atype, atype_pointer}
use logoguess.Nanopb.IStream.{done, buffer}
use logoguess.Nanopb.IStream.Reads.{over, pb_read-Reads}
use logoguess.Nanopb.OStream.{OStream}
use logoguess.Nanopb.OStream.Room.{HasRoom}
use logoguess.Nanopb.EncodeScalar.{pb_enc_string}
use logoguess.Nanopb.Wire.Varint32.{pb_decode_varint32-Reads}
use logoguess.Nanopb.Allocate.{Realloc}
use logoguess.Nanopb.DecodeString.{put_bytes, read_string, read_static, pb_dec_string}
use logoguess.Nanopb.RoundTrip.{Refills}
use logoguess.Nanopb.RoundTrip.Substream.{delimited}
use logoguess.Nanopb.RoundTrip.Bytes.{pb_enc_string-delimited}

put_end :
    (body dest : List ℕ)
    → length body < length dest
    → put_bytes 0 (body ++ 0 ∷ []) dest ≡ some (body ++ 0 ∷ drop (length body + 1) dest)
unfolding put_bytes
put_end body dest fits =
    let wide = length-append body (0 ∷ []) in
    rw (le→leb (0 + length (body ++ 0 ∷ [])) (length dest) (omega arith)) (
      ap (λ (t : ℕ). some ((body ++ 0 ∷ []) ++ drop t dest)) (omega arith)
      ∙ ap some (append_assoc body (0 ∷ []) (drop (length body + 1) dest)))

read_string_lem :
    (body dest mem : List ℕ) (n : ℕ) (e : Option PbError)
    → length body < length dest
    → read_string (length body) dest (over (body ++ mem) (length body + n) e)
      ≡ (done tt (over mem n e), some (body ++ 0 ∷ drop (length body + 1) dest))
unfolding read_string
read_string_lem body dest mem n e fits =
    rw (read_string, pb_read-Reads buffer body mem n e, put_end body dest fits) refl

-- A NUL-terminated string that fits, with its NUL, a field in the struct: pb_enc_string writes its
-- length and its bytes, to a stream with room for them, and pb_dec_string stores them, with the NUL,
-- at the front of such a field, keeps the bytes behind, and returns true.
pub pb_enc_string-Refills :
    (pb_realloc : Realloc) (field : PbField) (body behind dest : List ℕ) (s : OStream)
    (mem : List ℕ) (n : ℕ) (e : Option PbError)
    → (atype field.type == atype_pointer) ≡ false
    → All (λ b. 0 < b) body
    → length body < field.data_size
    → field.data_size < 2 ^ 32
    → length dest ≡ field.data_size
    → HasRoom (length (delimited body)) s
    → Refills
        (pb_enc_string field (some (body ++ 0 ∷ behind)))
        (pb_dec_string pb_realloc field (some dest))
        (delimited body)
        (body ++ 0 ∷ drop (length body + 1) dest)
        s
        mem
        n
        e
unfolding pb_dec_string read_static
pb_enc_string-Refills pb_realloc field body behind dest s mem n e in_struct h fits small wide room =
    let whole : (length body + 1) % 2 ^ 32 ≡ length body + 1 = mod-eq_of_lt (omega arith) in
    (
      pb_enc_string-delimited field body behind s h (rw in_struct (omega arith)) (omega arith) room,
      rw
          (
            append_assoc,
            length-append,
            add_assoc,
            pb_decode_varint32-Reads (length body) (omega arith) (body ++ mem) (length body + n) e,
            whole,
            ge→ltb (length body + 1) (length body) (omega arith),
            in_struct,
            ge→ltb field.data_size (length body + 1) (omega arith),
          )
          (read_string_lem body dest mem n e (omega arith)),
    )
