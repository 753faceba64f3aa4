-- ===== src/Fbase64/Examples.antt =====
-- Examples of the theorems about fbase64.c, on the text of two bytes.
use logoguess.Common.{ℕ, ◌≡◌, arith, some, List, [], ◌∷◌, length}
use logoguess.Common.Int.{ℤ, pos}
use logoguess.Fbase64.{returned, f_b64_ntop}
use logoguess.Fbase64.Scan.{f_b64_pton}
use logoguess.Fbase64.Encode.{Encoded}
use logoguess.Fbase64.Encode.Text.{base64_text, f_b64_ntop-Encoded}
use logoguess.Fbase64.Decode.RoundTrip.{f_b64_pton-f_b64_ntop}
use logoguess.Fbase64.SafeLoop.{here, later, f_b64_pton-Returns}

f_b64_ntop-Encoded_example :
    Encoded 5 [] (base64_text (104 ∷ 105 ∷ [])) (f_b64_ntop (104 ∷ 105 ∷ 9 ∷ []) 2 5)
unfolding base64_text
f_b64_ntop-Encoded_example =
    f_b64_ntop-Encoded (104 ∷ 105 ∷ []) (9 ∷ []) 5 (omega arith, (omega arith, tt)) (omega arith)

f_b64_pton-f_b64_ntop_example :
    (text rest : List ℕ) × (f_b64_ntop (104 ∷ 105 ∷ 9 ∷ []) 2 5 ≡ returned (pos 4) text)
    × (f_b64_pton text (some (0 ∷ 0 ∷ 0 ∷ [])) 3 ≡ returned (pos 2) (some (104 ∷ 105 ∷ rest)))
f_b64_pton-f_b64_ntop_example =
    f_b64_pton-f_b64_ntop (104 ∷ 105 ∷ []) (9 ∷ []) (0 ∷ 0 ∷ 0 ∷ []) 5
      (omega arith, (omega arith, tt)) (omega arith) (omega arith) (omega arith)

f_b64_pton-Returns_example :
    (n : ℤ) × (t : List ℕ) × (f_b64_pton (97 ∷ 61 ∷ 42 ∷ 0 ∷ []) (some (0 ∷ [])) 1
      ≡ returned n (some t))
    × (length t ≡ 1)
f_b64_pton-Returns_example =
    f_b64_pton-Returns (97 ∷ 61 ∷ 42 ∷ 0 ∷ []) (0 ∷ []) (later (later (later here))) (omega arith)
