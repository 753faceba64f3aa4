-- ===== src/Nanopb/DecodeMessage/Safe.antt =====
-- What the functions of the message level keep of a stream over a buffer.
pub mod Fields
pub mod Message
pub mod Pointers
pub mod Extensions
pub mod Values
pub mod Calls
pub mod Actions
pub mod Decode
use logoguess.Common.{
  ℕ, zero, suc, ◌+◌, ◌-◌, ◌≤◌, ◌<◌, ◌≡◌, refl, arith, if◌then◌else◌, Bool, true, false, Option,
  some, none, length, length-drop, All-drop, drop,
}
use logoguess.Nanopb.Errors.{PbError}
use logoguess.Nanopb.IStream.{IStream, Outcome, done, failed, first_error}
use logoguess.Nanopb.IStream.Safe.{
  IsByte, IsBuffer, Advance, Advance-IsBuffer, Advance-refl, Advance-trans, Advance-set_error, Runs,
  returns, stops,
}
use logoguess.Nanopb.Wire.Consumes.{Consumes, takes, ends, Cut, Opens, opens, refuses, Cut-IsBuffer}
use logoguess.Nanopb.Wire.SafeSubstream.{closed_lem}
use logoguess.Nanopb.DecodeScalar.{Stored}
use logoguess.Nanopb.Memory.{Memory}
use logoguess.Nanopb.DecodeMessage.Actions.{
  Result, Action, returned, fault, overrun, and_then, ◌>>◌, return_error, with_some, loaded,
  changed, stored, decoded, status_of, stores,
}
use logoguess.Nanopb.DecodeMessage.Values.{closed}

-- A stream after a failure: it need not be in step, as a substream may be left open, but it has no
-- fewer bytes behind it than before.
pub record Slack (s t : IStream) : Type 0 where
  pub is_buffer : IsBuffer t
  pub behind : length s.state + t.bytes_left ≤ length t.state + s.bytes_left

-- A result that is no overrun: if it is true, the stream has advanced, by `n` bytes or more.
pub data Fine (n : ℕ) (s : IStream) : Result → Type 0 where
  succeeds :
      {t : IStream} {mem : Memory}
      → Advance s t
      → t.bytes_left + n ≤ s.bytes_left
      → Fine n s (returned true t mem)
  fails : {t : IStream} {mem : Memory} → Slack s t → Fine n s (returned false t mem)
  faults : Fine n s fault

pub Advance-Slack : {s t : IStream} → Advance s t → Slack s t
Advance-Slack a = record { is_buffer = Advance-IsBuffer a; behind = omega (arith, a.in_step) }

Slack-after : {s t u : IStream} → Advance s t → Slack t u → Slack s u
Slack-after a b = record { is_buffer = b.is_buffer; behind = omega (arith, a.in_step, b.behind) }

pub Fine-weaken : {n m : ℕ} {s : IStream} {r : Result} → m ≤ n → Fine n s r → Fine m s r
Fine-weaken h (succeeds a less) = succeeds a (omega (arith, less))
Fine-weaken h (fails a) = fails a
Fine-weaken h faults = faults

pub Fine-after :
    {n : ℕ} (k : ℕ) {s t : IStream} {r : Result}
    → Advance s t
    → t.bytes_left + k ≤ s.bytes_left
    → Fine n t r
    → Fine (k + n) s r
Fine-after k a h (succeeds b less) = succeeds (Advance-trans a b) (omega (arith, less, h))
Fine-after k a h (fails b) = fails (Slack-after a b)
Fine-after k a h faults = faults

pub Fine-true : {s : IStream} {mem : Memory} → IsBuffer s → Fine 0 s (returned true s mem)
Fine-true h = succeeds (Advance-refl h) (omega arith)

pub Fine-error :
    {n : ℕ} {s : IStream} {mem : Memory} (e : PbError)
    → IsBuffer s
    → Fine n s (return_error e s mem)
Fine-error e h = fails (Advance-Slack (Advance-set_error e (Advance-refl h)))

pub Fine-then :
    {k n : ℕ} {s : IStream} {r : Result} {f : Action}
    → Fine k s r
    → ((t : IStream) (mem : Memory)
        → IsBuffer t
        → t.bytes_left + k ≤ s.bytes_left
        → Fine n t (f t mem))
    → Fine (k + n) s (and_then r f)
Fine-then {k} (succeeds {t} {mem} a less) rest =
    Fine-after k a less (rest t mem (Advance-IsBuffer a) less)
Fine-then (fails a) rest = fails a
Fine-then faults rest = faults

pub Fine-changed : {s : IStream} (o : Option Memory) → IsBuffer s → Fine 0 s (changed o s)
Fine-changed none h = faults
Fine-changed (some mem) h = Fine-true h

pub Fine-if :
    {n : ℕ} {s : IStream} (b : Bool) {x y : Result}
    → (b ≡ true → Fine n s x)
    → (b ≡ false → Fine n s y)
    → Fine n s (if b then x else y)
Fine-if true p q = p refl
Fine-if false p q = q refl

module _ {A : Type 0} where
  pub Fine-with_some :
      {n : ℕ} {s t : IStream} {mem : Memory} (o : Option A) (k : A → Action)
      → ((a : A) → o ≡ some a → Fine n s (k a t mem))
      → Fine n s (with_some o k t mem)
  Fine-with_some none k h = faults
  Fine-with_some (some a) k h = h a refl

  pub Fine-decoded :
      {P : A → Type 0} {n : ℕ} {s : IStream} {o : Outcome A} {mem : Memory} (k : A → Action)
      → Consumes P s o
      → ((a : A) (t : IStream)
          → P a
          → IsBuffer t
          → t.bytes_left < s.bytes_left
          → Fine n t (k a t mem))
      → Fine (1 + n) s (decoded o mem k)
  Fine-decoded k (takes {a} {t} p b less) rest =
      Fine-after 1 b (omega (arith, less)) (rest a t p (Advance-IsBuffer b) less)
  Fine-decoded k (ends b) rest = fails (Advance-Slack b)

  pub Fine-decoded-Runs :
      {P : A → Type 0} {n : ℕ} {s : IStream} {o : Outcome A} {mem : Memory} (k : A → Action)
      → Runs P s o
      → ((a : A) (t : IStream)
          → P a
          → IsBuffer t
          → t.bytes_left ≤ s.bytes_left
          → Fine n t (k a t mem))
      → Fine n s (decoded o mem k)
  Fine-decoded-Runs {n = n} k (returns {a} {t} p b) rest =
      Fine-weaken (omega arith)
        (Fine-after 0 b (omega (arith, b.shrinks)) (rest a t p (Advance-IsBuffer b) b.shrinks))
  Fine-decoded-Runs k (stops b) rest = fails (Advance-Slack b)

Fine-status :
    {s : IStream} (o : Outcome (Unit {0})) (m : Option Memory)
    → Consumes (λ _. Unit {0}) s o
    → Fine 1 s (status_of o m)
Fine-status o none c = faults
Fine-status o (some mem) c = Fine-decoded _ c λ _ t _ ht _. Fine-true ht

pub Fine-stores :
    {A : Type 0} {s : IStream} (r : Stored A) (write : A → Memory → Option Memory) (mem : Memory)
    → Consumes (λ _. Unit {0}) s r.0
    → Fine 1 s (stores r write mem)
Fine-stores (o, none) write mem c = Fine-status o (some mem) c
Fine-stores (o, some a) write mem c = Fine-status o (write a mem) c

-- Closing a substream succeeds.
pub Fine-closed :
    {s before : IStream} {size n : ℕ} {r : Result}
    → Cut s before size
    → Fine n (record before { bytes_left = size }) r
    → Fine 1 s (closed (record before { bytes_left = before.bytes_left - size }) r)
Fine-closed {s} {before} {size} c (succeeds {t = used} a less) =
    rw
      (closed_lem used (record before { bytes_left = before.bytes_left - size })
        (Advance-IsBuffer a))
      (succeeds
        (Advance-trans c.opened (record {
          from_buffer = c.opened.from_buffer;
          covered = omega (
            arith,
            c.opened.covered,
            c.fits,
            a.covered,
            a.in_step,
            length-drop used.bytes_left used.state,
          );
          octets = All-drop IsByte used.bytes_left used.state a.octets;
          in_step = omega (
            arith,
            c.opened.covered,
            c.fits,
            a.covered,
            a.in_step,
            length-drop used.bytes_left used.state,
          );
          shrinks = omega arith;
          error_kept = a.error_kept;
        }))
        (omega (arith, c.less)))
Fine-closed {s} {before} {size} c (fails {t = used} a) =
    let h = a.is_buffer in
    rw (closed_lem used (record before { bytes_left = before.bytes_left - size }) h) (
      fails (
        Slack-after c.opened (record {
          is_buffer = record {
            from_buffer = c.opened.from_buffer;
            covered = omega (
              arith,
              c.opened.covered,
              c.fits,
              h.covered,
              a.behind,
              length-drop used.bytes_left used.state,
            );
            octets = All-drop IsByte used.bytes_left used.state h.octets;
          };
          behind = omega (
            arith,
            c.opened.covered,
            c.fits,
            h.covered,
            a.behind,
            length-drop used.bytes_left used.state,
          );
        })))
Fine-closed c faults = faults

-- The stream that a substream was cut from, when it is left open.
pub Cut-Slack :
    {s before : IStream} {size : ℕ}
    → Cut s before size
    → Slack s (record before { bytes_left = before.bytes_left - size })
Cut-Slack c = Slack-after c.opened (record {
  is_buffer = record {
    from_buffer = c.opened.from_buffer;
    covered = omega (arith, c.opened.covered);
    octets = c.opened.octets;
  };
  behind = omega arith;
})

pub Slack-set_error :
    {s t : IStream} (e : PbError)
    → Slack s t
    → Slack s (record t { errmsg = first_error t.errmsg e })
Slack-set_error e a = record {
  is_buffer = record {
    from_buffer = a.is_buffer.from_buffer;
    covered = a.is_buffer.covered;
    octets = a.is_buffer.octets;
  };
  behind = a.behind;
}

pub Fine-opened :
    {n : ℕ} {s : IStream} {o : Outcome IStream} {mem : Memory} (k : IStream → Action)
    → Opens s o
    → ((before : IStream) (size : ℕ)
        → Cut s before size
        → Fine n s (
            k
              (record before { bytes_left = size })
              (record before { bytes_left = before.bytes_left - size })
              mem))
    → Fine n s (decoded o mem k)
Fine-opened k (opens {before} {size} c) rest = rest before size c
Fine-opened k (refuses a) rest = fails (Advance-Slack a)
