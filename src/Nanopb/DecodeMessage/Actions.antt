-- ===== src/Nanopb/DecodeMessage/Actions.antt =====
-- Functions of pb_decode.c that read a stream and change the memory, and what they are given: the
-- descriptor tables, the user's functions and the allocator.
use logoguess.Common.{ℕ, Bool, true, false, Option, none, some, List, get_elem?}
use logoguess.Nanopb.Errors.{PbError}
use logoguess.Nanopb.Field.{PbField}
use logoguess.Nanopb.FieldIter.{FieldIter}
use logoguess.Nanopb.IStream.{IStream, Outcome, done, failed, first_error}
use logoguess.Nanopb.Memory.{Memory}
use logoguess.Nanopb.IStream as I
use logoguess.Nanopb.DecodeScalar.{Stored}

-- What is returned, with the stream and the memory. `fault` is no result: an access outside of an
-- object, a descriptor or a list in the memory that has no end, or tables nested too deep for the
-- fuel. Nor is `overrun`: a read outside of the stream's buffer, or a loop over the stream that
-- outran its fuel.
pub data Result : Type 0 where
  returned : Bool → IStream → Memory → Result
  fault : Result
  overrun : Result

abbrev pub Action : Type 0
Action = IStream → Memory → Result

-- Go on if true was returned.
abbrev pub and_then : Result → Action → Result
and_then (returned true s mem) k = k s mem
and_then (returned false s mem) k = returned false s mem
and_then fault k = fault
and_then overrun k = overrun

infixl 5 ◌>>◌
abbrev pub ◌>>◌ : Action → Action → Action
m >> k = λ s mem. and_then (m s mem) k

abbrev pub return_error : PbError → Action
return_error e s mem = returned false (record s { errmsg = first_error s.errmsg e }) mem

-- Go on with what was loaded. A fault if it lies outside of the memory.
abbrev pub with_some : {A : Type 0} → Option A → (A → Action) → Action
with_some none k s mem = fault
with_some (some a) k s mem = k a s mem

abbrev pub loaded : {A : Type 0} → (Memory → Option A) → (A → Action) → Action
loaded read k s mem = with_some (read mem) k s mem

-- A change of the memory.
abbrev pub changed : Option Memory → IStream → Result
changed none s = fault
changed (some mem) s = returned true s mem

abbrev pub stored : (Memory → Option Memory) → Action
stored write s mem = changed (write mem) s

-- A function that only reads the stream, and what follows it.
abbrev pub decoded : {A : Type 0} → Outcome A → Memory → (A → Action) → Result
decoded (done a s) mem k = k a s mem
decoded (failed s) mem k = returned false s mem
decoded I.fault mem k = overrun

-- A pb_dec_ function, and where its value goes.
abbrev pub status_of : Outcome (Unit {0}) → Option Memory → Result
status_of o none = fault
status_of o (some mem) = decoded o mem λ _ s mem'. returned true s mem'

abbrev pub stores : {A : Type 0} → Stored A → (A → Memory → Option Memory) → Memory → Result
stores (o, none) write mem = status_of o (some mem)
stores (o, some a) write mem = status_of o (write a mem)

-- pb_realloc, which is realloc of the C library: the new block's address and the memory with it,
-- none for NULL, which leaves the memory as it was. pb_free, which is free: none for an address that
-- holds no block. Both are given NULL, too.
pub record Allocator : Type 0 where
  pub pb_realloc : ℕ → ℕ → Memory → Option (ℕ × Memory)
  pub pb_free : ℕ → Memory → Option Memory

pub record DecodeProgram : Type 0 where
  -- The pb_field_t array at an address, with its terminator.
  pub fields_at : ℕ → Option (List PbField)
  -- `funcs.decode` of a pb_callback_t: the function at an address, of a field and of `arg`.
  pub decode_at : ℕ → Option (PbField → ℕ → Action)
  -- `decode` of a pb_extension_type_t, of the extension's address, a tag and a wire type.
  pub extension_decode_at : ℕ → Option (ℕ → ℕ → ℕ → Action)
  pub allocator : Allocator
  -- The address of the local `fixed_count_size` of pb_decode_noinit, for each depth of its calls.
  pub fixed_count_size_at : ℕ → ℕ

-- pb_decode, or pb_decode_noinit, for the messages of one nesting depth.
abbrev pub DecodesMessage : Type 0
DecodesMessage = List PbField → ℕ → Action

-- `iter->pos`.
abbrev pub field_of : FieldIter → Option PbField
field_of iter = get_elem? iter.start iter.pos
