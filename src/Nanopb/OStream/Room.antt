-- ===== src/Nanopb/OStream/Room.antt =====
-- What pb_write does on a stream that has room for the bytes: an encoder's output, as a list.
use native.Mathlib.Nat.{add_assoc}
use logoguess.Common.{ℕ, ◌+◌, ◌-◌, ◌^◌, ◌≤◌, ◌<◌, ◌≡◌, refl, ap, ◌∙◌, arith, Option}
use logoguess.Common.{
  List, [], ◌∷◌, ◌++◌, length, append-nil, append_assoc, length-append, take-length_append,
}
use logoguess.Nanopb.Errors.{PbError}
use logoguess.Nanopb.OStream.{
  OCallback, sizing, buf_write, custom, OStream, sent, Encoder, ◌>>◌, pb_write,
}

abbrev TakesIn : OCallback → ℕ → ℕ → ℕ → ℕ → Type 0
TakesIn sizing count room max_size bytes_written = Unit {0}
TakesIn buf_write count room max_size bytes_written =
    (count ≤ room) × (bytes_written + count ≤ max_size)
TakesIn (custom f) count room max_size bytes_written = ⊥

-- A sizing stream, or one over a buffer that has room for `count` bytes more.
pub record HasRoom (count : ℕ) (s : OStream) : Type 0 where
  pub counts : s.bytes_written + count < 2 ^ 64
  pub takes_in : TakesIn s.callback count s.room s.max_size s.bytes_written

abbrev pub stored : OCallback → List ℕ → List ℕ → List ℕ
stored sizing state bytes = state
stored buf_write state bytes = state ++ bytes
stored (custom f) state bytes = state

abbrev room_left : OCallback → ℕ → ℕ → ℕ
room_left sizing room count = room
room_left buf_write room count = room - count
room_left (custom f) room count = room

-- The stream after `bytes`: a sizing stream only counts them.
abbrev pub pushed : List ℕ → OStream → OStream
pushed bytes s = record s {
  state = stored s.callback s.state bytes;
  room = room_left s.callback s.room (length bytes);
  bytes_written = s.bytes_written + length bytes;
}

-- With room for them, `m` writes `bytes`.
abbrev pub Emits : Encoder → List ℕ → Type 0
Emits m bytes = (s : OStream) → HasRoom (length bytes) s → m s ≡ sent (pushed bytes s)

pb_write-Emits_at :
    (bytes : List ℕ) (c : OCallback) (state : List ℕ) (room max written : ℕ) (e : Option PbError)
    → let s : OStream = record {
      callback = c;
      state = state;
      room = room;
      max_size = max;
      bytes_written = written;
      errmsg = e;
    } in
      HasRoom (length bytes) s → pb_write bytes (length bytes) s ≡ sent (pushed bytes s)
unfolding pb_write
pb_write-Emits_at bytes (custom f) state room max written e h = absurd (h.takes_in)
pb_write-Emits_at bytes sizing state room max written e h = ground arith
pb_write-Emits_at [] buf_write state room max written e h = ground (arith, append-nil state)
pb_write-Emits_at (x ∷ bytes) buf_write state room max written e h =
    ground (arith, take-length_append bytes [], append-nil bytes)

pub pb_write-Emits : (bytes : List ℕ) → Emits (pb_write bytes (length bytes)) bytes
pb_write-Emits bytes s =
    pb_write-Emits_at bytes s.callback s.state s.room s.max_size s.bytes_written s.errmsg

stored-append :
    (c : OCallback) (state xs ys : List ℕ)
    → stored c (stored c state xs) ys ≡ stored c state (xs ++ ys)
stored-append sizing state xs ys = refl
stored-append buf_write state xs ys = append_assoc state xs ys
stored-append (custom f) state xs ys = refl

room_left-add :
    (c : OCallback) (room m n : ℕ) → room_left c (room_left c room m) n ≡ room_left c room (m + n)
room_left-add sizing room m n = refl
room_left-add buf_write room m n = omega arith
room_left-add (custom f) room m n = refl

TakesIn-add :
    (c : OCallback) (m n room max written : ℕ)
    → TakesIn c (m + n) room max written
    → TakesIn c m room max written × TakesIn c n (room_left c room m) max (written + m)
TakesIn-add sizing m n room max written h = (tt, tt)
TakesIn-add buf_write m n room max written h =
    ((omega arith, omega arith), (omega arith, omega arith))
TakesIn-add (custom f) m n room max written h = absurd h

pushed-pushed : (xs ys : List ℕ) (s : OStream) → pushed ys (pushed xs s) ≡ pushed (xs ++ ys) s
pushed-pushed xs ys s = rw length-append λ i. record s {
  state = stored-append s.callback s.state xs ys i;
  room = room_left-add s.callback s.room (length xs) (length ys) i;
  bytes_written = add_assoc s.bytes_written (length xs) (length ys) i;
}

HasRoom-append :
    (xs ys : List ℕ) (s : OStream)
    → HasRoom (length (xs ++ ys)) s
    → HasRoom (length xs) s × HasRoom (length ys) (pushed xs s)
HasRoom-append xs ys s h =
    let both =
      TakesIn-add s.callback (length xs) (length ys) s.room s.max_size s.bytes_written
        (rw length-append at h.takes_in) in
    (
      record { counts = omega (arith, h.counts, length-append xs ys); takes_in = both.0 },
      record { counts = omega (arith, h.counts, length-append xs ys); takes_in = both.1 },
    )

-- Encoders in a row write their bytes in a row.
pub Emits-then :
    {m k : Encoder} (xs ys : List ℕ) → Emits m xs → Emits k ys → Emits (m >> k) (xs ++ ys)
Emits-then xs ys p q s h =
    let (h₁, h₂) = HasRoom-append xs ys s h in
    rw (p s h₁) (q (pushed xs s) h₂ ∙ ap sent (pushed-pushed xs ys s))

pb_write-Emits_prefix_at :
    (bytes behind : List ℕ) (c : OCallback) (state : List ℕ) (room max written : ℕ)
    (e : Option PbError)
    → let s : OStream = record {
      callback = c;
      state = state;
      room = room;
      max_size = max;
      bytes_written = written;
      errmsg = e;
    } in
      HasRoom (length bytes) s → pb_write (bytes ++ behind) (length bytes) s ≡ sent (pushed bytes s)
unfolding pb_write
pb_write-Emits_prefix_at bytes behind (custom f) state room max written e h = absurd (h.takes_in)
pb_write-Emits_prefix_at bytes behind sizing state room max written e h = ground arith
pb_write-Emits_prefix_at [] behind buf_write state room max written e h =
    ground (arith, append-nil state)
pb_write-Emits_prefix_at (x ∷ bytes) behind buf_write state room max written e h =
    ground (arith, take-length_append bytes behind, length-append bytes behind)

-- pb_write copies as many bytes as it is told from a longer memory.
pub pb_write-Emits_prefix :
    (bytes behind : List ℕ) → Emits (pb_write (bytes ++ behind) (length bytes)) bytes
pb_write-Emits_prefix bytes behind s =
    pb_write-Emits_prefix_at bytes behind s.callback s.state s.room s.max_size s.bytes_written
      s.errmsg
