-- ===== src/Nanopb/IStream/Safe.antt =====
-- What every decoding function keeps on a stream over a buffer: it reads nothing outside the
-- buffer, `state` and `bytes_left` move in step, and the first error message stays.
use logoguess.Common.{ℕ, ◌+◌, ◌≤◌, ◌<◌, ◌≡◌, refl, arith}
use logoguess.Common.{Bool, true, false, if◌then◌else◌, Option, none, some, length, All}
use logoguess.Nanopb.Errors.{PbError}
use logoguess.Nanopb.IStream.{buf_read, IStream, Outcome, done, failed, and_then}
use logoguess.Nanopb.IStream.{Decoder, return_error, first_error}

abbrev pub IsByte : ℕ → Type 0
IsByte b = b < 256

-- A stream over a buffer that holds the bytes still to be read.
pub record IsBuffer (s : IStream) : Type 0 where
  pub from_buffer : s.callback ≡ buf_read
  pub covered : s.bytes_left ≤ length s.state
  pub octets : All IsByte s.state

abbrev pub KeepsError : Option PbError → Option PbError → Type 0
KeepsError none after = Unit {0}
KeepsError (some e) after = after ≡ some e

pub record Advance (s t : IStream) : Type 0 where
  pub from_buffer : t.callback ≡ buf_read
  pub covered : t.bytes_left ≤ length t.state
  pub octets : All IsByte t.state
  pub in_step : length t.state + s.bytes_left ≡ length s.state + t.bytes_left
  pub shrinks : t.bytes_left ≤ s.bytes_left
  pub error_kept : KeepsError s.errmsg t.errmsg

-- The run from `s` does not fault, it advances the stream, and `P` holds of its value if it has
-- one.
pub data Runs {A : Type 0} (P : A → Type 0) (s : IStream) : Outcome A → Type 0 where
  returns : {a : A} {t : IStream} → P a → Advance s t → Runs P s (done a t)
  stops : {t : IStream} → Advance s t → Runs P s (failed t)

pub Advance-IsBuffer : {s t : IStream} → Advance s t → IsBuffer t
Advance-IsBuffer a = record { from_buffer = a.from_buffer; covered = a.covered; octets = a.octets }

pub KeepsError-refl : (e : Option PbError) → KeepsError e e
KeepsError-refl none = tt
KeepsError-refl (some e) = refl

pub KeepsError-trans : (a b c : Option PbError) → KeepsError a b → KeepsError b c → KeepsError a c
KeepsError-trans none b c p q = tt
KeepsError-trans (some e) none c p q = ground arith
KeepsError-trans (some e) (some d) c p q = ground arith

pub Advance-refl : {s : IStream} → IsBuffer s → Advance s s
Advance-refl {s} b = record {
  from_buffer = b.from_buffer;
  covered = b.covered;
  octets = b.octets;
  in_step = refl;
  shrinks = omega arith;
  error_kept = KeepsError-refl s.errmsg;
}

pub Advance-trans : {s t u : IStream} → Advance s t → Advance t u → Advance s u
Advance-trans {s} {t} {u} p q = record {
  from_buffer = q.from_buffer;
  covered = q.covered;
  octets = q.octets;
  in_step = omega (arith, p.in_step, q.in_step);
  shrinks = omega (arith, p.shrinks, q.shrinks);
  error_kept = KeepsError-trans s.errmsg t.errmsg u.errmsg p.error_kept q.error_kept;
}

KeepsError-first_error : (m : Option PbError) (e : PbError) → KeepsError m (first_error m e)
KeepsError-first_error none e = tt
KeepsError-first_error (some d) e = refl

pub Advance-set_error :
    {s t : IStream} (e : PbError)
    → Advance s t
    → Advance s (record t { errmsg = first_error t.errmsg e })
Advance-set_error {s} {t} e a = record {
  from_buffer = a.from_buffer;
  covered = a.covered;
  octets = a.octets;
  in_step = a.in_step;
  shrinks = a.shrinks;
  error_kept =
      KeepsError-trans s.errmsg t.errmsg _ a.error_kept (KeepsError-first_error t.errmsg e);
}

module _ {A : Type 0} {P : A → Type 0} where
  pub Runs-error : {s : IStream} (e : PbError) → IsBuffer s → Runs P s (return_error e s)
  Runs-error e b = stops (Advance-set_error e (Advance-refl b))

  -- A run from a later stream is one from the earlier stream.
  pub Runs-from : {s t : IStream} {r : Outcome A} → Advance s t → Runs P t r → Runs P s r
  Runs-from a (returns p b) = returns p (Advance-trans a b)
  Runs-from a (stops b) = stops (Advance-trans a b)

  pub Runs-if :
      (b : Bool) {s : IStream} {x y : Outcome A}
      → (b ≡ true → Runs P s x)
      → (b ≡ false → Runs P s y)
      → Runs P s (if b then x else y)
  Runs-if true p q = p refl
  Runs-if false p q = q refl

  pub Runs-choose :
      (b : Bool) {s : IStream} (f g : Decoder A)
      → (b ≡ true → Runs P s (f s))
      → (b ≡ false → Runs P s (g s))
      → Runs P s ((if b then f else g) s)
  Runs-choose true f g p q = p refl
  Runs-choose false f g p q = q refl

  pub Runs-option :
      {X : Type 0} (o : Option X) {s : IStream} {x : Outcome A} (g : X → Outcome A)
      → (o ≡ none → Runs P s x)
      → ((a : X) → o ≡ some a → Runs P s (g a))
      → Runs P s (elim o [ none ↦ x | some a ↦ g a ])
  Runs-option none g p q = p refl
  Runs-option (some a) g p q = q a refl

  pub Runs-weaken :
      {Q : A → Type 0} {s : IStream} {r : Outcome A}
      → ((a : A) → P a → Q a)
      → Runs P s r
      → Runs Q s r
  Runs-weaken f (returns {a} p b) = returns (f a p) b
  Runs-weaken f (stops b) = stops b

pub Runs-bind :
    {A B : Type 0} {P : A → Type 0} {Q : B → Type 0} {s : IStream} {r : Outcome A}
    {f : A → Decoder B}
    → Runs P s r
    → ((a : A) (t : IStream) → P a → IsBuffer t → Runs Q t (f a t))
    → Runs Q s (and_then r f)
Runs-bind (returns {a} {t} p b) k = Runs-from b (k a t p (Advance-IsBuffer b))
Runs-bind (stops b) k = stops b
