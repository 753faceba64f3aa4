-- ===== src/Nanopb/DecodeString/Terminated.antt =====
-- What pb_dec_string stores.
use mathlib.Core.Path.{subst}
use logoguess.Common.{
  ℕ, ◌*◌, ◌||◌, ◌+◌, ◌%◌, ◌^◌, ◌<◌, ◌≤◌, ◌≡◌, refl, sym, arith, ltb, ◌==◌, ltb-false→le, le→leb,
  true, false, Bool, ◌∙◌, if◌then◌else◌,
}
use logoguess.Common.{
  Option, none, some, List, [], ◌∷◌, ◌++◌, length, take, drop, length-append, length-take,
  length-drop, append_assoc,
}
use logoguess.Nanopb.Errors.{size_too_large, string_overflow, invalid_size, realloc_failed}
use logoguess.Nanopb.IStream.{IStream, Outcome, done, failed, fault, buffer, pb_read, return_error}
use logoguess.Nanopb.IStream.Safe.{
  IsBuffer, Runs, Runs-weaken, Runs-option, returns, stops, Advance-refl, Advance-set_error,
  Runs-error, Runs-if,
}
use logoguess.Nanopb.IStream.SafeReads.{IsRead, pb_read-Runs}
use logoguess.Nanopb.Wire.Safe.{pb_decode_varint32-Runs}
use logoguess.Nanopb.DecodeScalar.{Stored, store_from}
use logoguess.Nanopb.DecodeScalar.SafeFields.{Stores, Holds, Stores-error, Stores-if, Stores-from}
use logoguess.Nanopb.Field.{PbField, atype, atype_pointer}
use logoguess.Nanopb.Allocate.{Realloc, reallocate, allocate_field}
use logoguess.Nanopb.Allocate.Overflow.{allocate_field_lem}
use logoguess.Nanopb.DecodeString.{put_result, put_bytes, read_string, read_static, pb_dec_string}

-- A block of `size` bytes with a C string in it.
pub record IsString (size : ℕ) (block : List ℕ) : Type 0 where
  pub body : List ℕ
  pub behind : List ℕ
  pub split : block ≡ body ++ 0 ∷ behind
  pub wide : length block ≡ size

-- A block has the size that was asked for.
unfoldable pub IsRealloc : Realloc → Type 0
IsRealloc pb_realloc =
    (ptr : Option (List ℕ)) (size : ℕ) (block : List ℕ)
    → pb_realloc ptr size ≡ some block
    → length block ≡ size

pub put_wide :
    (i : ℕ) (bytes dest : List ℕ)
    → i + length bytes ≤ length dest
    → length (take i dest ++ (bytes ++ drop (i + length bytes) dest)) ≡ length dest
put_wide i bytes dest fits =
    let behind = drop (i + length bytes) dest in
    let front = length-take i dest (omega arith) in
    let rest = length-drop (i + length bytes) dest in
    let outer = length-append (take i dest) (bytes ++ behind) in
    let inner = length-append bytes behind in omega arith

put_end-IsString :
    (bytes dest : List ℕ)
    → length bytes < length dest
    → IsString (length dest) ((bytes ++ 0 ∷ []) ++ drop (0 + length (bytes ++ 0 ∷ [])) dest)
put_end-IsString bytes dest fits = record {
  body = bytes;
  behind = drop (0 + length (bytes ++ 0 ∷ [])) dest;
  split = append_assoc bytes (0 ∷ []) (drop (0 + length (bytes ++ 0 ∷ [])) dest);
  wide = put_wide 0 (bytes ++ 0 ∷ []) dest (omega (arith, length-append bytes (0 ∷ [])));
}

put_nul-IsString :
    (i : ℕ) (dest : List ℕ)
    → i < length dest
    → IsString (length dest) (take i dest ++ (0 ∷ drop (i + length {A = ℕ} (0 ∷ [])) dest))
put_nul-IsString i dest fits = record {
  body = take i dest;
  behind = drop (i + length {A = ℕ} (0 ∷ [])) dest;
  split = refl;
  wide = put_wide i (0 ∷ []) dest (omega arith);
}

read_string-Stores :
    (size : ℕ) (dest : List ℕ) (s : IStream)
    → size < length dest
    → IsBuffer s
    → Stores (IsString (length dest)) s (read_string size dest s)
unfolding read_string put_bytes
read_string-Stores size dest s fits h =
    stored (pb_read buffer size s) (pb_read-Runs buffer size s h)
  where
    stored :
        (o : Outcome (List ℕ))
        → Runs (IsRead buffer size) s o
        → Stores (IsString (length dest)) s (elim o [
          | done bytes t ↦ put_result (done tt t) (put_bytes 0 (bytes ++ 0 ∷ []) dest)
          | failed t ↦ put_result (failed t) (put_bytes size (0 ∷ []) dest)
          | fault ↦ (fault, none)
        ])
    stored _ (returns {a = bytes} {t} p a) =
        rw
          (le→leb (0 + length (bytes ++ 0 ∷ [])) (length dest)
            (omega (arith, length-append bytes (0 ∷ []), p.wide)))
          (record {
            runs = returns tt a;
            holds = put_end-IsString bytes dest (omega (arith, p.wide));
          })
    stored _ (stops {t} a) =
        rw (le→leb (size + length {A = ℕ} (0 ∷ [])) (length dest) (omega arith))
          (record { runs = stops a; holds = put_nul-IsString size dest fits })

reallocate-Runs :
    (pb_realloc : Realloc) (ptr : Option (List ℕ)) (size : ℕ) (s : IStream)
    → IsRealloc pb_realloc
    → IsBuffer s
    → Runs (λ block. length block ≡ size) s (reallocate pb_realloc ptr size s)
unfolding reallocate IsRealloc
reallocate-Runs pb_realloc ptr size s sized h =
    Runs-option (pb_realloc ptr size) _ (λ _. Runs-error realloc_failed h)
      (λ block e. returns (sized ptr size block e) (Advance-refl h))

pub allocate_field-Runs :
    (pb_realloc : Realloc) (ptr : Option (List ℕ)) (size : ℕ) (s : IStream)
    → IsRealloc pb_realloc
    → IsBuffer s
    → Runs (λ block. length block ≡ size) s (allocate_field pb_realloc ptr size 1 s)
allocate_field-Runs pb_realloc ptr size s sized h =
    rw (allocate_field_lem pb_realloc ptr size 1 s) (
      Runs-if (size == 0 || 1 == 0) (λ _. Runs-error invalid_size h)
        (λ _.
          Runs-if (ltb (1 * size) (2 ^ 64))
            (λ _.
              Runs-weaken (λ block wide. omega arith)
                (reallocate-Runs pb_realloc ptr (1 * size) s sized h))
            (λ _. Runs-error size_too_large h)))

-- What is stored in a field: a C string, which takes the bytes of a field in the struct.
pub record IsStringField (field : PbField) (block : List ℕ) : Type 0 where
  pub string : IsString (length block) block
  pub in_struct : (atype field.type == atype_pointer) ≡ false → length block ≡ field.data_size

-- The memory at `dest`: the bytes of the field, if it is one in the struct.
unfoldable pub HasMemory : PbField → Option (List ℕ) → Type 0
HasMemory field dest =
    (atype field.type == atype_pointer) ≡ false
    → (block : List ℕ) × (dest ≡ some block) × (length block ≡ field.data_size)

Stores-weaken :
    {A : Type 0} {P Q : A → Type 0} {s : IStream} {r : Stored A}
    → ((a : A) → P a → Q a)
    → Stores P s r
    → Stores Q s r
Stores-weaken {A} {P} {Q} {s} {r} f h = record { runs = h.runs; holds = kept (r.1) (h.holds) }
  where
    kept : (o : Option A) → Holds P o → Holds Q o
    kept none p = tt
    kept (some a) p = f a p

read_string-Stores_field :
    (field : PbField) (size : ℕ) (dest : List ℕ) (s : IStream)
    → size < length dest
    → ((atype field.type == atype_pointer) ≡ false → length dest ≡ field.data_size)
    → IsBuffer s
    → Stores (IsStringField field) s (read_string size dest s)
read_string-Stores_field field size dest s fits in_struct h =
    Stores-weaken
      (λ block string. record {
        string = subst (λ t. IsString t block) (sym string.wide) string;
        in_struct = λ e. string.wide ∙ in_struct e;
      })
      (read_string-Stores size dest s fits h)

read_static-Stores :
    (field : PbField) (size : ℕ) (dest : Option (List ℕ)) (s : IStream)
    → (atype field.type == atype_pointer) ≡ false
    → HasMemory field dest
    → IsBuffer s
    → Stores (IsStringField field) s (read_static field.data_size size (size + 1) dest s)
unfolding read_static HasMemory
read_static-Stores field size dest s e memory h =
    let (block, at, wide) = memory e in
    rw at (
      Stores-if (ltb field.data_size (size + 1))
        (λ _. Stores-error (Advance-set_error string_overflow (Advance-refl h)))
        (λ small.
          let fits : size < length block =
            omega (arith, ltb-false→le field.data_size (size + 1) small) in
          read_string-Stores_field field size block s fits (λ _. wide) h))

-- pb_dec_string behind the size.
pub string_rest-Stores :
    (pb_realloc : Realloc) (field : PbField) (dest : Option (List ℕ)) (size : ℕ) (t : IStream)
    → IsRealloc pb_realloc
    → HasMemory field dest
    → size < 2 ^ 32
    → IsBuffer t
    → let alloc_size : ℕ = (size + 1) % 2 ^ 32 in
      Stores (IsStringField field) t (
        if ltb alloc_size size
        then (return_error size_too_large t, none)
        else if atype field.type == atype_pointer
        then (store_from
            (allocate_field pb_realloc dest alloc_size 1 t)
            λ block u. read_string size block u)
        else read_static field.data_size size alloc_size dest t)
string_rest-Stores pb_realloc field dest size t sized memory hs ht =
    Stores-if (ltb ((size + 1) % 2 ^ 32) size)
      (λ _. Stores-error (Advance-set_error size_too_large (Advance-refl ht)))
      (λ whole.
        let not_cut : (size + 1) % 2 ^ 32 ≡ size + 1 =
          uncut size hs (ltb-false→le ((size + 1) % 2 ^ 32) size whole) in
        rw not_cut (
          Stores-if (atype field.type == atype_pointer)
            (λ pointer.
              Stores-from _ (allocate_field-Runs pb_realloc dest (size + 1) t sized ht)
                λ block u wide hu.
                  read_string-Stores_field field size block u (omega arith)
                    (λ e. absurd (no_both _ pointer e)) hu)
            (λ e. read_static-Stores field size dest t e memory ht)))
  where
    uncut : (size : ℕ) → size < 2 ^ 32 → size ≤ (size + 1) % 2 ^ 32 → (size + 1) % 2 ^ 32 ≡ size + 1
    uncut size h le = omega arith

    no_both : (b : Bool) → b ≡ true → b ≡ false → ⊥
    no_both b p q = cc (p, q)

-- pb_dec_string on any stream over a buffer, for a field in the struct or behind a pointer, if
-- pb_realloc gives a block of the size it is asked for: no access outside the stream's buffer or the
-- field's memory. What is stored, also if the read fails, is a NUL-terminated string, which for a
-- field in the struct lies in its `data_size` bytes, and it is stored if true is returned.
pub pb_dec_string-Stores :
    (pb_realloc : Realloc) (field : PbField) (dest : Option (List ℕ)) (s : IStream)
    → IsRealloc pb_realloc
    → HasMemory field dest
    → IsBuffer s
    → Stores (IsStringField field) s (pb_dec_string pb_realloc field dest s)
unfolding pb_dec_string
pb_dec_string-Stores pb_realloc field dest s sized memory h =
    Stores-from _ (pb_decode_varint32-Runs s h)
      λ size t hs ht. string_rest-Stores pb_realloc field dest size t sized memory hs ht
