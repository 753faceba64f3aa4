-- ===== src/Nanopb/DecodeMessage/Safe/Actions.antt =====
-- The rules for actions on all short streams over a buffer.
use logoguess.Common.{ℕ, ◌+◌, ◌≤◌, ◌<◌, ◌≡◌, arith, if◌then◌else◌, Bool, true, false, Option, some}
use logoguess.Nanopb.Errors.{PbError}
use logoguess.Nanopb.IStream.{IStream}
use logoguess.Nanopb.IStream.Safe.{IsBuffer}
use logoguess.Nanopb.Memory.{Memory}
use logoguess.Nanopb.DecodeMessage.Actions.{Action, ◌>>◌, return_error, with_some, loaded, stored}
use logoguess.Nanopb.DecodeMessage.Safe.{
  Fine, Fine-weaken, Fine-error, Fine-then, Fine-changed, Fine-with_some,
}

-- An action on all streams over a buffer with fewer than `bound` bytes left.
abbrev pub IsFine : ℕ → ℕ → Action → Type 0
IsFine bound n m =
    (s : IStream) (mem : Memory) → IsBuffer s → s.bytes_left < bound → Fine n s (m s mem)

module _ {bound : ℕ} where
  pub IsFine->> :
      {k n : ℕ} (m f : Action) → IsFine bound k m → IsFine bound n f → IsFine bound (k + n) (m >> f)
  IsFine->> m f p q s mem h b = Fine-then (p s mem h b) λ t mem' ht less. q t mem' ht (omega arith)

  pub IsFine-loaded :
      {n : ℕ} {A : Type 0} (read : Memory → Option A) (k : A → Action)
      → ((a : A) → IsFine bound n (k a))
      → IsFine bound n (loaded read k)
  IsFine-loaded read k p s mem h b = Fine-with_some (read mem) k λ a _. p a s mem h b

  pub IsFine-with_some :
      {n : ℕ} {A : Type 0} (o : Option A) (k : A → Action)
      → ((a : A) → o ≡ some a → IsFine bound n (k a))
      → IsFine bound n (with_some o k)
  IsFine-with_some o k p s mem h b = Fine-with_some o k λ a e. p a e s mem h b

  pub IsFine-stored : (write : Memory → Option Memory) → IsFine bound 0 (stored write)
  IsFine-stored write s mem h b = Fine-changed (write mem) h

  pub IsFine-error : {n : ℕ} (e : PbError) → IsFine bound n (return_error e)
  IsFine-error e s mem h b = Fine-error e h

  pub IsFine-if :
      {n : ℕ} (c : Bool) {m f : Action}
      → IsFine bound n m
      → IsFine bound n f
      → IsFine bound n (if c then m else f)
  IsFine-if true p q = p
  IsFine-if false p q = q

  pub IsFine-weaken : {n m : ℕ} {a : Action} → m ≤ n → IsFine bound n a → IsFine bound m a
  IsFine-weaken le p s mem h b = Fine-weaken le (p s mem h b)
