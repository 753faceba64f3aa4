-- ===== src/Nanopb/Program.antt =====
-- What the message level of nanopb finds at addresses that are no data: descriptor tables, which are
-- constants of the generated code, and the user's functions.
use logoguess.Common.{ℕ, Option, List}
use logoguess.Nanopb.Field.{PbField}
use logoguess.Nanopb.OStream.{Encoder}

pub record EncodeProgram : Type 0 where
  -- The pb_field_t array at an address, with its terminator.
  pub fields_at : ℕ → Option (List PbField)
  -- `funcs.encode` of a pb_callback_t: the function at an address, of a field and of `arg`.
  pub encode_at : ℕ → Option (PbField → ℕ → Encoder)
  -- `encode` of a pb_extension_type_t, of the extension's address.
  pub extension_encode_at : ℕ → Option (ℕ → Encoder)
