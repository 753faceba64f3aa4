-- ===== src/Nanopb/SafeMessageExamples.antt =====
-- Examples of the theorems about decoding messages and bytes.
use mathlib.Core.Path.{subst}
use mathlib.Core.Option.{some-injective}
use logoguess.Common.{
  arith, ℕ, ◌≡◌, refl, replicate, Bool, true, false, Option, some, none, List, [], ◌∷◌, ◌==◌,
  if◌then◌else◌,
}
use logoguess.Nanopb.Field.{PbField}
use logoguess.Nanopb.FieldIter.{FieldIter}
use logoguess.Nanopb.IStream.{pb_readbyte}
use logoguess.Nanopb.IStream.Reads.{over}
use logoguess.Nanopb.IStream.Safe.{IsBuffer}
use logoguess.Nanopb.Wire.Consumes.{pb_readbyte-Consumes}
use logoguess.Common.Int.{pos}
use logoguess.Nanopb.Memory.{
  ◌>>=◌, Memory, null, load, store, load_pointer, to_bytes, little_endian,
}
use logoguess.Nanopb.DecodeScalar.SafeFields.{Stores}
use logoguess.Nanopb.DecodeString.Terminated.{HasMemory}
use logoguess.Nanopb.DecodeBytes.{pb_dec_bytes}
use logoguess.Nanopb.DecodeBytes.Bounds.{IsBytes, pb_dec_bytes-Stores}
use logoguess.Nanopb.DecodeMessage.{pb_decode, pb_decode_delimited}
use logoguess.Nanopb.DecodeMessage.Actions.{Action, DecodeProgram, decoded, returned}
use logoguess.Nanopb.DecodeMessage.Release.{pb_release_single_field}
use logoguess.Nanopb.DecodeMessage.Release.Twice.{pb_release_single_field_twice}
use logoguess.Nanopb.DecodeMessage.Required.{at_most_max, all_seen}
use logoguess.Nanopb.DecodeMessage.Required.Words.{all_below}
use logoguess.Nanopb.DecodeMessage.Required.Bitmap.{Found, mark_all, was_found}
use logoguess.Nanopb.DecodeMessage.Required.Seen.{all_seen-mark_all}
use logoguess.Nanopb.DecodeMessage.Safe.{Fine, Fine-true, Fine-decoded, Fine-weaken}
use logoguess.Nanopb.DecodeMessage.Safe.Fields.{CallbacksRead}
use logoguess.Nanopb.DecodeMessage.Safe.Decode.{pb_decode-Fine}
use logoguess.Nanopb.Examples.{field_of}
use logoguess.Nanopb.StringExamples.{grow, grow-IsRealloc}
use logoguess.Nanopb.MessageExamples.{pair_fields, decode_program, empty_pair, input}

-- A function for callback fields: it reads a byte.
abbrev read_one : PbField → ℕ → Action
read_one field arg s mem = decoded (pb_readbyte s) mem λ _ s'. returned true s'

abbrev reading_program : DecodeProgram
reading_program = record decode_program {
  decode_at = λ p. if p == 3000 then some read_one else none;
}

reading_program-CallbacksRead : CallbacksRead reading_program
reading_program-CallbacksRead = record {
  decode = λ p f e field arg s mem h n one left.
      subst (λ (g : PbField → ℕ → Action). Fine n s (g field arg s mem)) (read (p == 3000) f e)
        (Fine-weaken one (Fine-decoded _ (pb_readbyte-Consumes s h) λ b t _ ht _. Fine-true ht));
  extension_decode = λ p f e. absurd (no e);
}
  where
    no : {A : Type 0} {a : A} → none ≡ some a → ⊥
    no e = cc e

    read :
        (b : Bool) (f : PbField → ℕ → Action)
        → (if b then some read_one else none) ≡ some f
        → read_one ≡ f
    read true f e = some-injective _ _ e
    read false f e = cc e

input-IsBuffer : IsBuffer (over input 11 none)
input-IsBuffer = record {
  from_buffer = refl;
  covered = omega arith;
  octets = (
    omega arith,
    (
      omega arith,
      (
        omega arith,
        (
          omega arith,
          (
            omega arith,
            (
              omega arith,
              (omega arith, (omega arith, (omega arith, (omega arith, (omega arith, tt))))),
            ),
          ),
        ),
      ),
    ),
  );
}

pb_decode-Fine_example :
    Fine 0
      (over input 11 none)
      (pb_decode reading_program 12 pair_fields 4096 (over input 11 none) empty_pair)
    × Fine 1
        (over input 11 none)
        (pb_decode_delimited reading_program 12 pair_fields 4096 (over input 11 none) empty_pair)
pb_decode-Fine_example =
    pb_decode-Fine reading_program 12 pair_fields 4096 (over input 11 none) empty_pair
      reading_program-CallbacksRead input-IsBuffer (omega arith)

-- The iterator at a required field.
abbrev at_required : ℕ → FieldIter
at_required i = record {
  start = [];
  pos = i;
  required_field_index = i;
  dest_struct = 0;
  p_data = 0;
  p_size = 0;
}

-- The first and the last of three required fields, and an optional one.
abbrev two_found : List Found
two_found =
    (field_of 2 4, at_required 2)
    ∷ (field_of 18 4, at_required 1)
    ∷ (field_of 2 4, at_required 0)
    ∷ []

all_seen-mark_all_example :
    (mark_all two_found (0 ∷ 0 ∷ []) >>= all_seen (at_most_max 3))
    ≡ some (all_below (at_most_max 3) (was_found two_found))
all_seen-mark_all_example =
    all_seen-mark_all two_found 3
      ((λ _. omega arith), ((λ _. omega arith), ((λ _. omega arith), tt)))

-- Eight bytes of a struct.
abbrev array_memory : Option (List ℕ)
array_memory = some (9 ∷ 9 ∷ 9 ∷ 9 ∷ 9 ∷ 9 ∷ 9 ∷ 9 ∷ [])

array_memory-HasMemory : HasMemory (field_of 6 8) array_memory
unfolding HasMemory
array_memory-HasMemory e = (9 ∷ 9 ∷ 9 ∷ 9 ∷ 9 ∷ 9 ∷ 9 ∷ 9 ∷ [], refl, refl)

pb_dec_bytes-Stores_example :
    Stores
      (IsBytes (field_of 6 8))
      (over (2 ∷ 104 ∷ 105 ∷ []) 3 none)
      (pb_dec_bytes grow (field_of 6 8) array_memory (over (2 ∷ 104 ∷ 105 ∷ []) 3 none))
pb_dec_bytes-Stores_example =
    pb_dec_bytes-Stores grow (field_of 6 8) array_memory (over (2 ∷ 104 ∷ 105 ∷ []) 3 none)
      grow-IsRealloc array_memory-HasMemory
      (record {
        from_buffer = refl;
        covered = omega arith;
        octets = (omega arith, (omega arith, (omega arith, tt)));
      })

-- An optional string behind a pointer.
abbrev string_field : PbField
string_field = record {
  tag = 1;
  type = 0x97;
  data_offset = 0;
  size_offset = pos 0;
  data_size = 1;
  array_size = 0;
  ptr = 0;
}

abbrev at_string : FieldIter
at_string = record {
  start = string_field ∷ [];
  pos = 0;
  required_field_index = 0;
  dest_struct = 4096;
  p_data = 4096;
  p_size = 4096;
}

-- free of a heap whose blocks are objects.
unfoldable free_block : ℕ → Memory → Option Memory
free_block p [] = none
free_block p (object ∷ mem) =
    let rest = free_block p mem >>= λ mem'. some (object ∷ mem') in
    if object.base == p then some mem else rest

abbrev freeing_program : DecodeProgram
freeing_program = record decode_program {
  allocator = record {
    pb_realloc = λ p size mem. none;
    pb_free = λ p mem. if p == null then some mem else free_block p mem;
  };
}

-- The struct, whose pointer is that of a block.
abbrev with_string : Memory
with_string =
    record { base = 4096; bytes = 136 ∷ 19 ∷ 0 ∷ 0 ∷ 0 ∷ 0 ∷ 0 ∷ 0 ∷ [] }
    ∷ record { base = 5000; bytes = 104 ∷ 105 ∷ 0 ∷ [] }
    ∷ []

abbrev without_string : Memory
without_string = record { base = 4096; bytes = replicate 8 0 } ∷ []

released : pb_release_single_field freeing_program 1 at_string with_string ≡ some without_string
unfolding pb_release_single_field store load to_bytes free_block little_endian
released = refl

pb_release_single_field_twice_example :
    (load_pointer 4096 without_string ≡ some null)
    × (pb_release_single_field freeing_program 1 at_string without_string ≡ some without_string)
pb_release_single_field_twice_example =
    pb_release_single_field_twice freeing_program 0 string_field at_string with_string
      without_string (λ m. refl) refl refl refl refl released
