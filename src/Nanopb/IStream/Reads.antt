-- ===== src/Nanopb/IStream/Reads.antt =====
-- What pb_read and pb_readbyte return on a stream over a buffer.
use logoguess.Common.{ℕ, suc, ◌+◌, ◌<◌, ◌≡◌, refl, sym, arith}
use logoguess.Common.{Option, List, [], ◌∷◌, ◌++◌, length, length-append, append_assoc}
use logoguess.Common.{take-length_append, drop-length_append}
use native.Mathlib.Nat.{add_assoc}
use native.Mathlib.Numerals.{one-add}
use logoguess.Nanopb.Errors.{PbError, end_of_stream}
use logoguess.Nanopb.IStream.{
  buf_read, IStream, done, and_then, Decoder, return_error, Dest, kept, null, buffer,
}
use logoguess.Nanopb.IStream.{pb_read, pb_readbyte}

-- The stream over `mem` that may read `n` bytes of it.
abbrev pub over : List ℕ → ℕ → Option PbError → IStream
over mem n e = record { callback = buf_read; state = mem; bytes_left = n; errmsg = e }

pub pb_readbyte-cons :
    (b : ℕ) (mem : List ℕ) (n : ℕ) (e : Option PbError)
    → pb_readbyte (over (b ∷ mem) (suc n) e) ≡ done b (over mem n e)
unfolding pb_readbyte
pb_readbyte-cons b mem n e = ground arith

pub pb_readbyte_end :
    (mem : List ℕ) (e : Option PbError)
    → pb_readbyte (over mem 0 e) ≡ return_error end_of_stream (over mem 0 e)
unfolding pb_readbyte
pb_readbyte_end mem e = refl

-- pb_read takes the next bytes, and leaves what follows them.
pub pb_read-append :
    (dest : Dest) (xs mem : List ℕ) (n : ℕ) (e : Option PbError)
    → pb_read dest (length xs) (over (xs ++ mem) (length xs + n) e)
      ≡ done (kept dest xs) (over mem n e)
unfolding pb_read
pb_read-append null xs mem n e = ground (arith, length-append xs mem, drop-length_append xs mem)
pb_read-append buffer xs mem n e =
    ground (arith, length-append xs mem, take-length_append xs mem, drop-length_append xs mem)

pub pb_read_end :
    (dest : Dest) (count : ℕ) (mem : List ℕ) (n : ℕ) (e : Option PbError)
    → n < count
    → pb_read dest count (over mem n e) ≡ return_error end_of_stream (over mem n e)
unfolding pb_read
pb_read_end dest count mem n e h = ground arith

-- `m` takes `xs` off the front of the stream, whatever follows them, and returns `a`.
abbrev pub Reads : {A : Type 0} → Decoder A → List ℕ → A → Type 0
Reads m xs a =
    (mem : List ℕ) (n : ℕ) (e : Option PbError)
    → m (over (xs ++ mem) (length xs + n) e) ≡ done a (over mem n e)

module _ {A B : Type 0} where
  pub Reads-then :
      (m : Decoder A) (f : A → Decoder B) (xs ys : List ℕ) (a : A) {b : B}
      → Reads m xs a
      → Reads (f a) ys b
      → Reads (λ s. and_then (m s) f) (xs ++ ys) b
  Reads-then m f xs ys a p q mem n e =
      rw (append_assoc, length-append, add_assoc, p (ys ++ mem) (length ys + n) e) (q mem n e)

  pub Reads-map :
      (m : Decoder A) (f : A → B) (xs : List ℕ) (a : A)
      → Reads m xs a
      → Reads (λ s. and_then (m s) (λ x s'. done (f x) s')) xs (f a)
  Reads-map m f xs a p mem n e = rw (p mem n e)

pub pb_read-Reads : (dest : Dest) (xs : List ℕ) → Reads (pb_read dest (length xs)) xs (kept dest xs)
pb_read-Reads = pb_read-append

pub pb_read_one :
    (b : ℕ) (mem : List ℕ) (n : ℕ) (e : Option PbError)
    → pb_read buffer 1 (over (b ∷ mem) (suc n) e) ≡ done (b ∷ []) (over mem n e)
pb_read_one b mem n e = rw (sym (one-add n)) (pb_read-append buffer (b ∷ []) mem n e)
