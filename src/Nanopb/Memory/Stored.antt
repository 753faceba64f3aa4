-- ===== src/Nanopb/Memory/Stored.antt =====
-- Loads behind stores.
use mathlib.Core.Option.{some-injective}
use mathlib.Core.Path.{subst}
use logoguess.Common.{
  ℕ, zero, suc, ◌+◌, ◌-◌, ◌≤◌, ◌≡◌, refl, ap, sym, ◌∙◌, arith, if◌then◌else◌, ◌&&◌, Bool, true,
  false, leb→le,
}
use logoguess.Common.{
  Option, none, some, List, [], ◌∷◌, ◌++◌, length, take, drop, length-append, length-take,
  length-drop, take-length_append, drop-length_append,
}
use logoguess.Nanopb.Memory.{Object, Memory, ◌>>=◌, holds, load, store, overwrite}

module _ {A B : Type 0} where
  pub bind_some :
      (o : Option A) (f : A → Option B) (b : B)
      → o >>= f ≡ some b
      → (a : A) × ((o ≡ some a) × (f a ≡ some b))
  bind_some none f b e = absurd (no e)
    where
      no : none ≡ some b → ⊥
      no e = cc e
  bind_some (some a) f b e = (a, (refl, e))

-- The bytes behind an offset, cut to a number of them.
piece :
    (offset : ℕ) (bytes xs : List ℕ)
    → offset + length bytes ≤ length xs
    → take
        (length bytes)
        (drop offset (take offset xs ++ (bytes ++ drop (offset + length bytes) xs)))
      ≡ bytes
piece offset bytes xs h =
    ap (λ ys. take (length bytes) ys) (skipped offset xs _ (omega arith))
    ∙ take-length_append bytes (drop (offset + length bytes) xs)
  where
    skipped : (n : ℕ) (xs ys : List ℕ) → n ≤ length xs → drop n (take n xs ++ ys) ≡ ys
    skipped n xs ys h =
        subst (λ (k : ℕ). drop k (take n xs ++ ys) ≡ ys) (length-take n xs h)
          (drop-length_append (take n xs) ys)

take-drop : (n : ℕ) (xs : List ℕ) → take n xs ++ drop n xs ≡ xs
take-drop zero xs = refl
take-drop (suc n) [] = refl
take-drop (suc n) (x ∷ xs) = ap (λ ys. x ∷ ys) (take-drop n xs)

plus_suc : (n m : ℕ) → suc n + m ≡ suc (n + m)
plus_suc n m = omega arith

nothing : (k : ℕ) → [] ≡ drop {A = ℕ} k []
nothing zero = refl
nothing (suc k) = refl

drop-drop : (n m : ℕ) (xs : List ℕ) → drop (n + m) xs ≡ drop m (drop n xs)
drop-drop zero m xs = ap (λ (k : ℕ). drop k xs) (omega arith)
drop-drop (suc n) m [] = ap (λ (k : ℕ). drop k []) (plus_suc n m) ∙ nothing m
drop-drop (suc n) m (x ∷ xs) = ap (λ (k : ℕ). drop k (x ∷ xs)) (plus_suc n m) ∙ drop-drop n m xs

whole :
    (offset count : ℕ) (xs : List ℕ)
    → take offset xs ++ (take count (drop offset xs) ++ drop (offset + count) xs) ≡ xs
whole offset count xs =
    ap (λ ys. take offset xs ++ (take count (drop offset xs) ++ ys)) (drop-drop offset count xs)
    ∙ ap (λ ys. take offset xs ++ ys) (take-drop count (drop offset xs))
    ∙ take-drop offset xs

both : (a b : Bool) → a && b ≡ true → (a ≡ true) × (b ≡ true)
both true b e = (refl, e)
both false b e = absurd (no e)
  where
    no : false ≡ true → ⊥
    no e = cc e

held_inside :
    (object : Object) (count p : ℕ)
    → holds object count p ≡ true
    → (object.base ≤ p) × (p + count ≤ object.base + length object.bytes)
held_inside object count p e =
    let (starts, stops) = both _ _ e in
    (leb→le object.base p starts, leb→le (p + count) (object.base + length object.bytes) stops)

overwritten_wide :
    (offset : ℕ) (bytes xs : List ℕ)
    → offset + length bytes ≤ length xs
    → length (take offset xs ++ (bytes ++ drop (offset + length bytes) xs)) ≡ length xs
overwritten_wide offset bytes xs h = omega (
  arith,
  length-append (take offset xs) (bytes ++ drop (offset + length bytes) xs),
  length-append bytes (drop (offset + length bytes) xs),
  length-take offset xs (omega arith),
  length-drop (offset + length bytes) xs,
)

-- The bytes that were stored are loaded.
pub load-store :
    (bytes : List ℕ) (p : ℕ) (mem mem' : Memory)
    → store bytes p mem ≡ some mem'
    → load (length bytes) p mem' ≡ some bytes
unfolding store load
load-store bytes p [] mem' e = absurd (no e)
  where
    no : none ≡ some mem' → ⊥
    no e = cc e
load-store bytes p (object ∷ mem) mem' e =
    stored (holds object (length bytes) p) refl (λ m h. load-store bytes p mem m h) e
  where
    stored :
        (b : Bool)
        → holds object (length bytes) p ≡ b
        → ((m : Memory) → store bytes p mem ≡ some m → load (length bytes) p m ≡ some bytes)
        → (if b
            then some (overwrite (p - object.base) bytes object ∷ mem)
            else (store bytes p mem >>= λ m. some (object ∷ m)))
          ≡ some mem'
        → load (length bytes) p mem' ≡ some bytes
    stored true held below e =
        let (starts, stops) = held_inside object (length bytes) p held in
        let inside : p - object.base + length bytes ≤ length object.bytes = omega arith in
        subst (λ m. load (length bytes) p m ≡ some bytes) (some-injective _ _ e)
          (rw (overwritten_wide (p - object.base) bytes object.bytes inside, held)
            (ap some (piece (p - object.base) bytes object.bytes inside)))
    stored false elsewhere below e =
        let (m, (kept, last)) = bind_some (store bytes p mem) (λ m. some (object ∷ m)) mem' e in
        subst (λ m. load (length bytes) p m ≡ some bytes) (some-injective _ _ last)
          (rw elsewhere (below m kept))

-- Storing what is loaded anyway changes nothing.
pub store-load :
    (bytes : List ℕ) (p : ℕ) (mem : Memory)
    → load (length bytes) p mem ≡ some bytes
    → store bytes p mem ≡ some mem
unfolding store load
store-load bytes p [] e = absurd (no e)
  where
    no : none ≡ some bytes → ⊥
    no e = cc e
store-load bytes p (object ∷ mem) e =
    loaded (holds object (length bytes) p) (λ h. store-load bytes p mem h) e
  where
    loaded :
        (b : Bool)
        → (load (length bytes) p mem ≡ some bytes → store bytes p mem ≡ some mem)
        → (if b
            then some (take (length bytes) (drop (p - object.base) object.bytes))
            else load (length bytes) p mem)
          ≡ some bytes
        → (if b
            then some (overwrite (p - object.base) bytes object ∷ mem)
            else (store bytes p mem >>= λ m. some (object ∷ m)))
          ≡ some (object ∷ mem)
    loaded true below e =
        ap (λ bs. some (record object { bytes = bs } ∷ mem))
          (ap
              (λ bs.
                take (p - object.base) object.bytes
                ++ (bs ++ drop (p - object.base + length bytes) object.bytes))
              (sym (some-injective _ _ e))
            ∙ whole (p - object.base) (length bytes) object.bytes)
    loaded false below e = rw (below e) refl
