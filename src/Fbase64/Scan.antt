-- ===== src/Fbase64/Scan.antt =====
-- f_b64_pton of fbase64.c.
use logoguess.Common.{
  ℕ, zero, suc, ◌+◌, ◌*◌, ◌/◌, ◌%◌, ◌^◌, bit_and, bit_or, ltb, leb, ◌==◌, if◌then◌else◌,
}
use logoguess.Common.{Bool, true, false, ◌&&◌, ◌||◌, Option, none, some}
use logoguess.Common.{List, [], ◌∷◌, get_elem?}
use logoguess.Common.Int.{to_signed}
use logoguess.Fbase64.{base64, pad64, Converted, returned, fault, failed}

-- `isspace`, in the C locale.
abbrev pub isspace : ℕ → Bool
isspace ch = ch == 32 || leb 9 ch && leb ch 13

-- `strchr(string, ch) - string`.
abbrev pub strchr : List ℕ → ℕ → Option ℕ
strchr [] ch = none
strchr (x ∷ string) ch =
    let more = strchr string ch in
    if x == ch then some 0 else elim more [ none ↦ none | some i ↦ some (suc i) ]

-- `target[i] = f(target[i])`, as a u_char. None outside of the buffer.
unfoldable pub change : (ℕ → ℕ) → ℕ → List ℕ → Option (List ℕ)
change f i [] = none
change f zero (x ∷ target) = some (f x % 256 ∷ target)
change f (suc i) (x ∷ target) = elim (change f i target) [
  | none ↦ none
  | some rest ↦ some (x ∷ rest)
]

-- The locals of f_b64_pton that its loop changes, and the buffer, none for a null `target`.
pub record Pton : Type 0 where
  pub state : ℕ
  pub tarindex : ℕ
  pub target : Option (List ℕ)

-- What a character does: go on, `return (-1)`, or leave the buffer.
pub data Step : Type 0 where
  next : Pton → Step
  refused : Step
  outside : Step

abbrev store : Option (List ℕ) → Pton → Step
store none st = outside
store (some target) st = next (record st { target = some target })

-- `target[i] |= low` and `target[i + 1] = high`.
abbrev pub split_byte : ℕ → ℕ → ℕ → List ℕ → Option (List ℕ)
split_byte i low high target = elim (change (λ x. bit_or x low) i target) [
  | none ↦ none
  | some changed ↦ change (λ _. high) ((i + 1) % 2 ^ 32) changed
]

-- The switch of f_b64_pton, for the digit `v` and a buffer.
unfoldable pub put_digit : ℕ → ℕ → List ℕ → Pton → Step
put_digit targsize v target st =
    let i = st.tarindex in
    let two_fit = ltb ((i + 1) % 2 ^ 32) targsize in
    if st.state == 0
    then (if ltb i targsize then store (change (λ _. v * 4) i target) st else refused)
    else if st.state == 1
    then (if two_fit
        then store (split_byte i (v / 16) (bit_and v 0x0f * 16) target) st
        else refused)
    else if st.state == 2
    then (if two_fit then store (split_byte i (v / 4) (bit_and v 0x03 * 64) target) st else refused)
    else (if ltb i targsize then store (change (λ x. bit_or x v) i target) st else refused)

-- `tarindex` and `state` after a digit.
abbrev turn : Pton → Pton
turn st = record st {
  state = (st.state + 1) % 4;
  tarindex = if st.state == 0 then st.tarindex else (st.tarindex + 1) % 2 ^ 32;
}

abbrev turned : Step → Step
turned (next st) = next (turn st)
turned refused = refused
turned outside = outside

unfoldable pub take_digit : ℕ → ℕ → Pton → Step
unfolding put_digit
take_digit targsize v st = elim (st.target) [
  | none ↦ next (turn st)
  | some target ↦ turned (put_digit targsize v target st)
]

-- The loop in front of the second pad: from the first character that is no space, or the NUL, on.
-- None if the string does not end.
unfoldable pub skip_spaces : List ℕ → Option (List ℕ)
skip_spaces [] = none
skip_spaces (ch ∷ src) =
    let more = skip_spaces src in
    if ch == 0 then some (ch ∷ src) else if isspace ch then more else some (ch ∷ src)

-- Whether only spaces are left.
unfoldable pub only_spaces : List ℕ → Option Bool
only_spaces [] = none
only_spaces (ch ∷ src) =
    let more = only_spaces src in
    if ch == 0 then some true else if isspace ch then more else some false

-- `return (tarindex)`, as an int.
abbrev finished : Pton → Converted (Option (List ℕ))
finished st = returned (to_signed 32 st.tarindex) st.target

-- The test of the extra bits.
unfoldable pub check_extra : Pton → Converted (Option (List ℕ))
check_extra st = elim (st.target) [
  | none ↦ finished st
  | some target ↦ elim (get_elem? target st.tarindex) [
    | none ↦ fault
    | some extra ↦ if extra == 0 then finished st else failed st.target
  ]
]

-- Case 3, behind the last pad.
unfoldable pub after_pad : List ℕ → Pton → Converted (Option (List ℕ))
unfolding only_spaces check_extra
after_pad src st = elim (only_spaces src) [
  | none ↦ fault
  | some clean ↦ if clean then check_extra st else failed st.target
]

-- Case 2: there must be one more pad.
unfoldable pub second_pad : Option (List ℕ) → Pton → Converted (Option (List ℕ))
unfolding after_pad
second_pad none st = fault
second_pad (some []) st = fault
second_pad (some (ch ∷ src)) st = if ch == pad64 then after_pad src st else failed st.target

-- f_b64_pton behind the first pad.
unfoldable pub pton_pad : List ℕ → Pton → Converted (Option (List ℕ))
unfolding skip_spaces second_pad after_pad
pton_pad [] st = fault
pton_pad (ch ∷ src) st =
    if leb st.state 1
    then failed st.target
    else if st.state == 2
    then second_pad (skip_spaces (ch ∷ src)) st
    else after_pad (ch ∷ src) st

abbrev pub go_on : Step → Pton → (Pton → Converted (Option (List ℕ))) → Converted (Option (List ℕ))
go_on (next st') st k = k st'
go_on refused st k = failed st.target
go_on outside st k = fault

-- The while loop of f_b64_pton, and what follows it.
unfoldable pub pton_loop : ℕ → List ℕ → Pton → Converted (Option (List ℕ))
pton_loop targsize [] st = fault
pton_loop targsize (ch ∷ src) st =
    let skipped = pton_loop targsize src st in
    if ch == 0
    then (if st.state == 0 then finished st else failed st.target)
    else if isspace ch
    then skipped
    else if ch == pad64
    then pton_pad src st
    else elim (strchr base64 ch) [
      | none ↦ failed st.target
      | some v ↦ go_on (take_digit targsize v st) st (pton_loop targsize src)
    ]

unfoldable pub f_b64_pton : List ℕ → Option (List ℕ) → ℕ → Converted (Option (List ℕ))
f_b64_pton src target targsize =
    pton_loop targsize src (record { state = 0; tarindex = 0; target = target })
