-- ===== src/Fbase64.antt =====
-- f_b64_ntop and f_b64_pton of fbase64.c: base64 to and from text.
pub mod Decode
pub mod Digits
pub mod Encode
pub mod SafeLoop
pub mod Scan
mod Examples
pub mod Safe
use logoguess.Common.{
  ℕ, zero, suc, ◌+◌, ◌-◌, ◌*◌, ◌/◌, ◌%◌, ◌^◌, bit_and, bit_or, ltb, leb, ◌==◌, if◌then◌else◌,
}
use logoguess.Common.{Bool, true, false, not, ◌&&◌, ◌||◌, Option, none, some}
use logoguess.Common.{List, [], ◌∷◌, ◌++◌, length, get_or, get_elem?}
use logoguess.Common.Int.{ℤ, pos, negsuc, to_signed}

-- Base64: the characters as numbers, 'A' to 'Z', 'a' to 'z', '0' to '9', '+' and '/'.
abbrev pub base64 : List ℕ
base64 =
    65 ∷ 66 ∷ 67 ∷ 68 ∷ 69 ∷ 70 ∷ 71 ∷ 72 ∷ 73 ∷ 74 ∷ 75 ∷ 76 ∷ 77 ∷ 78 ∷ 79 ∷ 80 ∷ 81 ∷ 82 ∷ 83
    ∷ 84 ∷ 85 ∷ 86 ∷ 87 ∷ 88 ∷ 89 ∷ 90 ∷ 97 ∷ 98 ∷ 99 ∷ 100 ∷ 101 ∷ 102 ∷ 103 ∷ 104 ∷ 105 ∷ 106
    ∷ 107 ∷ 108 ∷ 109 ∷ 110 ∷ 111 ∷ 112 ∷ 113 ∷ 114 ∷ 115 ∷ 116 ∷ 117 ∷ 118 ∷ 119 ∷ 120 ∷ 121 ∷ 122
    ∷ 48 ∷ 49 ∷ 50 ∷ 51 ∷ 52 ∷ 53 ∷ 54 ∷ 55 ∷ 56 ∷ 57 ∷ 43 ∷ 47 ∷ []

-- Pad64, '='.
abbrev pub pad64 : ℕ
pad64 = 61

-- What a call leaves: `returned` for the value of `return` and the bytes of `target`. `fault` is no
-- result: an access outside a string or a buffer.
pub data Converted (A : Type 0) : Type 0 where
  returned : ℤ → A → Converted A
  fault : Converted A

-- `return (-1)`.
abbrev pub failed : {A : Type 0} → A → Converted A
failed target = returned (negsuc 0) target

abbrev pub digit : ℕ → ℕ
digit v = get_or base64 v 0

-- `output[0]` to `output[3]` of the input bytes, as u_chars.
abbrev pub output0 : ℕ → ℕ
output0 a = a / 4

abbrev pub output1 : ℕ → ℕ → ℕ
output1 a b = (bit_and a 0x03 * 16 + b / 16) % 256

abbrev pub output2 : ℕ → ℕ → ℕ
output2 b c = (bit_and b 0x0f * 4 + c / 64) % 256

abbrev pub output3 : ℕ → ℕ
output3 c = bit_and c 0x3f

-- The end of f_b64_ntop: the NUL. `target` is what was stored so far, `datalength` characters.
unfoldable pub ntop_close : ℕ → ℕ → List ℕ → Converted (List ℕ)
ntop_close targsize datalength target =
    if leb targsize datalength
    then failed target
    else returned (to_signed 32 datalength) (target ++ 0 ∷ [])

-- The padding of the last `srclength` bytes, two at most.
unfoldable pub ntop_pad : ℕ → List ℕ → ℕ → ℕ → List ℕ → Converted (List ℕ)
ntop_pad targsize src srclength datalength target =
    let a = get_or src 0 0 in
    let b : ℕ = if ltb 1 srclength then get_or src 1 0 else 0 in
    let third = if srclength == 1 then pad64 else digit (output2 b 0) in
    let last = digit (output0 a) ∷ digit (output1 a b) ∷ third ∷ pad64 ∷ [] in
    if srclength == 0
    then ntop_close targsize datalength target
    else if ltb (length src) srclength
    then fault
    else if ltb targsize ((datalength + 4) % 2 ^ 64)
    then failed target
    else ntop_close targsize (datalength + 4) (target ++ last)

-- The while loop of f_b64_ntop, over the memory from `src` on.
unfoldable pub ntop_loop : ℕ → List ℕ → ℕ → ℕ → List ℕ → Converted (List ℕ)
ntop_loop targsize [] srclength datalength target =
    if ltb 2 srclength then fault else ntop_pad targsize [] srclength datalength target
ntop_loop targsize (a ∷ []) srclength datalength target =
    if ltb 2 srclength then fault else ntop_pad targsize (a ∷ []) srclength datalength target
ntop_loop targsize (a ∷ b ∷ []) srclength datalength target =
    if ltb 2 srclength then fault else ntop_pad targsize (a ∷ b ∷ []) srclength datalength target
ntop_loop targsize (a ∷ b ∷ c ∷ src) srclength datalength target =
    let four =
      digit (output0 a) ∷ digit (output1 a b) ∷ digit (output2 b c) ∷ digit (output3 c) ∷ [] in
    let more = ntop_loop targsize src (srclength - 3) (datalength + 4) (target ++ four) in
    let round = if ltb targsize ((datalength + 4) % 2 ^ 64) then failed target else more in
    if ltb 2 srclength
    then round
    else ntop_pad targsize (a ∷ b ∷ c ∷ src) srclength datalength target

unfoldable pub f_b64_ntop : List ℕ → ℕ → ℕ → Converted (List ℕ)
f_b64_ntop src srclength targsize = ntop_loop targsize src srclength 0 []
