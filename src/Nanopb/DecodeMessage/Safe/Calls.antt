-- ===== src/Nanopb/DecodeMessage/Safe/Calls.antt =====
-- The table PB_DECODERS and pb_dec_submessage on a stream over a buffer.
use mathlib.Core.Path.{subst}
use mathlib.Core.Option.{some-injective}
use logoguess.Common.{
  ℕ, suc, ◌+◌, ◌-◌, ◌≡◌, refl, arith, ◌==◌, if◌then◌else◌, ◌&&◌, Bool, true, false,
}
use logoguess.Common.{
  Bool-cases, inl, inr, Option, some, none, List, [], ◌∷◌, length, leb, take, drop, length-take,
  length-drop, leb→le,
}
use logoguess.Common.Int.{to_unsigned}
use logoguess.Nanopb.Errors.{invalid_field_descriptor}
use logoguess.Nanopb.Field.{
  PbField, ltype_bool, ltype_varint, ltype_uvarint, ltype_svarint, ltype_fixed32, ltype_fixed64,
  ltype_bytes, ltype_string, ltype_submessage, ltype_fixed_length_bytes, ltype, htype,
  htype_repeated, atype, atype_pointer,
}
use logoguess.Nanopb.IStream.{IStream}
use logoguess.Nanopb.IStream.Safe.{IsBuffer}
use logoguess.Nanopb.Wire.Consumes.{Consumes, Cut-IsBuffer, pb_make_string_substream-Opens}
use logoguess.Nanopb.DecodeScalar.{
  Stored, pb_dec_bool, pb_dec_varint, pb_dec_uvarint, pb_dec_svarint, pb_dec_fixed32,
  pb_dec_fixed64, pb_dec_fixed_length_bytes,
}
use logoguess.Nanopb.DecodeString.{pb_dec_string}
use logoguess.Nanopb.DecodeString.Terminated.{IsRealloc, HasMemory}
use logoguess.Nanopb.DecodeBytes.{pb_dec_bytes}
use logoguess.Nanopb.Allocate.{Realloc}
use logoguess.Nanopb.Memory.{Memory, null, ◌>>=◌, holds, load, load_pointer, store, store_number}
use logoguess.Nanopb.DecodeMessage.Actions.{DecodeProgram, DecodesMessage}
use logoguess.Nanopb.DecodeMessage.Values.{
  block_realloc, commit_block, call_with_block, read_submessage, pb_dec_submessage, call_decoder,
}
use logoguess.Nanopb.DecodeMessage.Safe.{
  fails, faults, Fine-if, Fine-with_some, Fine-opened, Fine-closed, Fine-stores, Cut-Slack,
  Slack-set_error,
}
use logoguess.Nanopb.DecodeMessage.Safe.Actions.{IsFine, IsFine-if, IsFine-loaded}
use logoguess.Nanopb.DecodeMessage.Safe.Values.{
  bool-Consumes, varint-Consumes, uvarint-Consumes, svarint-Consumes, fixed32-Consumes,
  fixed64-Consumes, fixed_length-Consumes, string-Consumes, bytes-Consumes,
}

-- What is loaded has the size that was asked for.
load_wide :
    (count p : ℕ) (mem : Memory) (bytes : List ℕ)
    → load count p mem ≡ some bytes
    → length bytes ≡ count
unfolding load
load_wide count p [] bytes e = cc e
load_wide count p (object ∷ mem) bytes e =
    here (holds object count p) refl (load_wide count p mem bytes) e
  where
    both : (a b : Bool) → (a && b) ≡ true → (a ≡ true) × (b ≡ true)
    both true true e = (refl, refl)
    both true false e = cc e
    both false b e = cc e

    here :
        (b : Bool)
        → holds object count p ≡ b
        → (load count p mem ≡ some bytes → length bytes ≡ count)
        → (if b then some (take count (drop (p - object.base) object.bytes)) else load count p mem)
          ≡ some bytes
        → length bytes ≡ count
    here false h rest e = rest e
    here true h rest e =
        let (low, high) =
          both (leb object.base p) (leb (p + count) (object.base + length object.bytes)) h in
        let le = leb→le _ _ low in
        let le' = leb→le _ _ high in
        subst (λ (xs : List ℕ). length xs ≡ count) (some-injective _ _ e)
          (length-take count (drop (p - object.base) object.bytes)
            (omega (arith, length-drop (p - object.base) object.bytes)))

module _ (program : DecodeProgram) where
  block_realloc-IsRealloc : (p : ℕ) (mem : Memory) → IsRealloc (block_realloc program p mem)
  unfolding IsRealloc
  block_realloc-IsRealloc p mem old size block = given (program.allocator.pb_realloc p size mem)
    where
      given :
          (o : Option (ℕ × Memory))
          → (o >>= λ new. load size (new.0) (new.1)) ≡ some block
          → length block ≡ size
      given none e = cc e
      given (some new) e = load_wide size (new.0) (new.1) block e

  -- A pb_dec_ function of bytes or of a string.
  abbrev TakesBlock : (Realloc → PbField → Option (List ℕ) → IStream → Stored (List ℕ)) → Type 0
  TakesBlock dec =
      (pb_realloc : Realloc) (field : PbField) (dest : Option (List ℕ))
      → IsRealloc pb_realloc
      → HasMemory field dest
      → (s : IStream) → IsBuffer s
      → Consumes (λ _. Unit {0}) s ((dec pb_realloc field dest s).0)

  call_with_block-IsFine :
      {bound : ℕ} (dec : Realloc → PbField → Option (List ℕ) → IStream → Stored (List ℕ))
      (field : PbField) (dest : ℕ)
      → TakesBlock dec
      → IsFine bound 1 (call_with_block program dec field dest)
  unfolding call_with_block IsRealloc HasMemory
  call_with_block-IsFine dec field dest takes_block =
      elim (Bool-cases (atype field.type == atype_pointer)) [
        | inl pointer ↦
            rw (call_with_block, pointer)
              (IsFine-loaded (load_pointer dest) _ λ p s mem h _.
                Fine-stores (dec (block_realloc program p mem) field none s)
                  (commit_block program dest p) mem
                  (takes_block (block_realloc program p mem) field none
                    (block_realloc-IsRealloc p mem) (λ e. absurd (differ pointer e)) s h))
        | inr static ↦
            rw (call_with_block, static)
              λ s mem h _. Fine-with_some (load field.data_size dest mem) _ λ block e.
                Fine-stores (dec (λ _ _. none) field (some block) s) (λ block'. store block' dest)
                  mem
                  (takes_block (λ _ _. none) field (some block) (λ _ _ _ e. absurd (no e))
                    (λ _. (block, refl, load_wide field.data_size dest mem block e)) s h)
      ]
    where
      differ : {b : Bool} → b ≡ true → b ≡ false → ⊥
      differ e e' = cc (e, e')

      no : {A : Type 0} {a : A} → none ≡ some a → ⊥
      no e = cc e

  -- pb_decode and pb_decode_noinit, one nesting depth below, on shorter streams.
  module _ (bound : ℕ) (decode noinit : DecodesMessage)
      (decode-IsFine : (fields : List PbField) (p : ℕ) → IsFine bound 0 (decode fields p))
      (noinit-IsFine : (fields : List PbField) (p : ℕ) → IsFine bound 0 (noinit fields p)) where
    pb_dec_submessage-IsFine :
        (field : PbField) (dest : ℕ)
        → IsFine (suc bound) 1 (pb_dec_submessage program decode noinit field dest)
    unfolding pb_dec_submessage read_submessage
    pb_dec_submessage-IsFine field dest s mem h b =
        Fine-opened _ (pb_make_string_substream-Opens s h) λ before size c.
          Fine-if (field.ptr == null)
            (λ _. fails (Slack-set_error invalid_field_descriptor (Cut-Slack c)))
            (λ _. Fine-with_some (program.fields_at field.ptr) _ λ fields _. Fine-closed c (
              IsFine-if (htype field.type == htype_repeated) (decode-IsFine fields dest)
                (noinit-IsFine fields dest) _ mem (Cut-IsBuffer c) (omega (arith, c.less, c.fits))))

    pub call_decoder-IsFine :
        (field : PbField) (dest : ℕ)
        → IsFine (suc bound) 1 (call_decoder program decode noinit field dest)
    unfolding call_decoder
    call_decoder-IsFine field dest =
        IsFine-if (t == ltype_bool)
          (λ s mem h _.
            Fine-stores (pb_dec_bool s) (λ b. store ((if b then 1 else 0) ∷ []) dest) mem
              (bool-Consumes s h))
          (IsFine-if (t == ltype_varint)
            (λ s mem h _.
              Fine-stores (pb_dec_varint field s)
                (λ v. store_number field.data_size (to_unsigned 64 v) dest) mem
                (varint-Consumes field s h))
            (IsFine-if (t == ltype_uvarint)
              (λ s mem h _.
                Fine-stores (pb_dec_uvarint field s) (λ v. store_number field.data_size v dest) mem
                  (uvarint-Consumes field s h))
              (IsFine-if (t == ltype_svarint)
                (λ s mem h _.
                  Fine-stores (pb_dec_svarint field s)
                    (λ v. store_number field.data_size (to_unsigned 64 v) dest) mem
                    (svarint-Consumes field s h))
                (IsFine-if (t == ltype_fixed32)
                  (λ s mem h _.
                    Fine-stores (pb_dec_fixed32 s) (λ v. store_number 4 v dest) mem
                      (fixed32-Consumes s h))
                  (IsFine-if (t == ltype_fixed64)
                    (λ s mem h _.
                      Fine-stores (pb_dec_fixed64 s) (λ v. store_number 8 v dest) mem
                        (fixed64-Consumes s h))
                    (IsFine-if (t == ltype_bytes)
                      (call_with_block-IsFine pb_dec_bytes field dest bytes-Consumes)
                      (IsFine-if (t == ltype_string)
                        (call_with_block-IsFine pb_dec_string field dest string-Consumes)
                        (IsFine-if (t == ltype_submessage) (pb_dec_submessage-IsFine field dest) (
                          IsFine-if (t == ltype_fixed_length_bytes)
                            (λ s mem h _.
                              Fine-stores (pb_dec_fixed_length_bytes field s)
                                (λ bytes. store bytes dest) mem (fixed_length-Consumes field s h))
                            (λ s mem h _. faults))))))))))
      where
        t : ℕ
        t = ltype field.type
