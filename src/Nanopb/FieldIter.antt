-- ===== src/Nanopb/FieldIter.antt =====
-- The field iterator of pb_common.c.
pub mod Find
pub mod Layout
pub mod Step
use logoguess.Common.{
  ℕ, zero, suc, ◌+◌, ◌-◌, ◌*◌, ◌%◌, ◌^◌, ◌==◌, if◌then◌else◌, Bool, true, false, not, ◌&&◌,
}
use logoguess.Common.{Option, none, some, List, [], ◌∷◌, get_elem?, length}
use logoguess.Common.Int.{ℤ, pos, negsuc, to_unsigned}
use logoguess.Nanopb.Field.{
  PbField, htype, atype, ltype, htype_oneof, htype_repeated, htype_required,
}
use logoguess.Nanopb.Field.{atype_static, atype_pointer, ltype_extension}

-- pb_field_iter_t. `start` is the memory from the first descriptor on, `pos` an index into it, and
-- `dest_struct`, `pData` and `pSize` are addresses of 64 bits.
pub record FieldIter : Type 0 where
  pub start : List PbField
  pub pos : ℕ
  pub required_field_index : ℕ
  pub dest_struct : ℕ
  pub p_data : ℕ
  pub p_size : ℕ

-- `(char*)pointer + offset`, for an offset that is no negative number, and for a pb_ssize_t.
abbrev plus : ℕ → ℕ → ℕ
plus pointer offset = (pointer + offset) % 2 ^ 64

abbrev plus_signed : ℕ → ℤ → ℕ
plus_signed pointer offset = (pointer + to_unsigned 64 offset) % 2 ^ 64

-- PB_SIZE_MAX, of a pb_size_t of 32 bits, and `sizeof(void*)`.
abbrev pb_size_max : ℕ
pb_size_max = 2 ^ 32 - 1

abbrev pointer_size : ℕ
pointer_size = 8

-- What pb_field_iter_begin stores in `*iter`.
abbrev pub first_iter : PbField → List PbField → ℕ → FieldIter
first_iter field fields dest_struct =
    let p_data = plus dest_struct field.data_offset in
    record {
      start = field ∷ fields;
      pos = 0;
      required_field_index = 0;
      dest_struct = dest_struct;
      p_data = p_data;
      p_size = plus_signed p_data field.size_offset;
    }

-- pb_field_iter_begin: the iterator and what is returned. None if there is no descriptor to read.
unfoldable pub pb_field_iter_begin : List PbField → ℕ → Option (FieldIter × Bool)
pb_field_iter_begin [] dest_struct = none
pb_field_iter_begin (field ∷ fields) dest_struct =
    some (first_iter field fields dest_struct, not (field.tag == 0))

-- `prev_size` as it is added to `pData`.
abbrev pub step_size : PbField → ℕ
step_size prev =
    if atype prev.type == atype_static && htype prev.type == htype_repeated
    then prev.data_size * prev.array_size % 2 ^ 64
    else if atype prev.type == atype_pointer
    then pointer_size
    else prev.data_size

-- Whether two neighbours are members of one union.
abbrev pub same_union : PbField → PbField → Bool
same_union prev field =
    (htype prev.type == htype_oneof && htype field.type == htype_oneof)
    && field.data_offset == pb_size_max

-- The rest of pb_field_iter_next, once `pos` has reached a field.
unfoldable pub step_to : PbField → PbField → FieldIter → FieldIter
step_to prev field iter =
    let p_data = plus (plus iter.p_data (step_size prev)) field.data_offset in
    if same_union prev field then record iter { pos = suc iter.pos } else record iter {
      pos = suc iter.pos;
      required_field_index =
          if htype prev.type == htype_required
          then (iter.required_field_index + 1) % 2 ^ 32
          else iter.required_field_index;
      p_data = p_data;
      p_size = plus_signed p_data field.size_offset;
    }

-- A wrapped iterator, and false.
abbrev pub rewound : Option (FieldIter × Bool) → Option (FieldIter × Bool)
rewound none = none
rewound (some (iter, nonempty)) = some (iter, false)

-- pb_field_iter_next: the iterator and what is returned. None if it reads behind the descriptors.
unfoldable pub pb_field_iter_next : FieldIter → Option (FieldIter × Bool)
unfolding pb_field_iter_begin
pb_field_iter_next iter = elim (get_elem? iter.start iter.pos) [
  | none ↦ none
  | some prev ↦
      if prev.tag == 0 then some (iter, false) else elim (get_elem? iter.start (suc iter.pos)) [
        | none ↦ none
        | some field ↦
            if field.tag == 0
            then rewound (pb_field_iter_begin iter.start iter.dest_struct)
            else some (step_to prev field iter, true)
      ]
]

-- The field that pb_field_iter_find looks for.
abbrev pub is_wanted : ℕ → PbField → Bool
is_wanted tag field = field.tag == tag && not (ltype field.type == ltype_extension)

-- The do-while loop of pb_field_iter_find, which began at `start`.
unfoldable pub find_loop : ℕ → ℕ → ℕ → FieldIter → Option (FieldIter × Bool)
find_loop zero start tag iter = none
find_loop (suc fuel) start tag iter = elim (get_elem? iter.start iter.pos) [
  | none ↦ none
  | some field ↦ if is_wanted tag field then some (iter, true) else elim (pb_field_iter_next iter) [
    | none ↦ none
    | some (iter', more) ↦
        let rest = find_loop fuel start tag iter' in
        if iter'.pos == start then some (iter', false) else rest
  ]
]

-- pb_field_iter_find, in as many rounds as there are descriptors, the terminator included.
unfoldable pub pb_field_iter_find : ℕ → FieldIter → Option (FieldIter × Bool)
pb_field_iter_find tag iter = find_loop (length iter.start) iter.pos tag iter
