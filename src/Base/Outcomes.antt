-- ===== src/Base/Outcomes.antt =====
-- What a C function does: it returns, it reports failure, or it has undefined behaviour.
use Prim.Native.Nat.{ℕ, zero, suc, ◌≤◌, ◌<◌}
use mathlib.Core.Path.{◌≡◌, refl, ap}
use mathlib.Core.Bool.{Bool, true, false}
use mathlib.Core.List.{List, [], ◌∷◌, ◌++◌}
use native.Mathlib.Omega.{arith}
use cc_rpc.Base.Lists.{length, take, drop}

-- `refuse` is the failure code of the function (0, -1 or NULL, as the function says).
-- `fault` is an access outside an object or through a null pointer.
pub data Outcome {ℓ} (A : Type ℓ) : Type ℓ where
  done : A → Outcome A
  refuse : Outcome A
  fault : Outcome A

infixl 5 ◌>>=◌ ◌>>◌
abbrev pub ◌>>=◌ {ℓ κ} : {A : Type ℓ} {B : Type κ} → Outcome A → (A → Outcome B) → Outcome B
done a >>= f = f a
refuse >>= f = refuse
fault >>= f = fault

abbrev pub ◌>>◌ {ℓ} : {B : Type ℓ} → Outcome (Unit {0}) → Outcome B → Outcome B
m >> k = m >>= λ _. k

-- `if (!b) return 0;`
abbrev pub accept : Bool → Outcome (Unit {0})
accept true = done tt
accept false = refuse

-- A dereference of a pointer that is null unless `b`.
abbrev pub deref : Bool → Outcome (Unit {0})
deref true = done tt
deref false = fault

-- `buf[i]`
abbrev pub load : List ℕ → ℕ → Outcome ℕ
load [] i = fault
load (x ∷ xs) zero = done x
load (x ∷ xs) (suc i) = load xs i

abbrev pub put_front : ℕ → Outcome (List ℕ) → Outcome (List ℕ)
put_front x r = r >>= λ xs. done (x ∷ xs)

-- `buf[i] = v`
abbrev pub store : List ℕ → ℕ → ℕ → Outcome (List ℕ)
store [] i v = fault
store (x ∷ xs) zero v = done (v ∷ xs)
store (x ∷ xs) (suc i) v = put_front x (store xs i v)

-- The bytes that `memcpy(dst, buf, n)` reads.
unfoldable pub copy_out : ℕ → List ℕ → Outcome (List ℕ)
copy_out zero xs = done []
copy_out (suc n) [] = fault
copy_out (suc n) (x ∷ xs) = put_front x (copy_out n xs)

-- `memcpy(buf, data, length data)`
unfoldable pub overwrite : List ℕ → List ℕ → Outcome (List ℕ)
overwrite xs [] = done xs
overwrite [] (d ∷ ds) = fault
overwrite (x ∷ xs) (d ∷ ds) = put_front d (overwrite xs ds)

-- `memcpy(&buf[off], data, length data)`
unfoldable pub copy_in : List ℕ → ℕ → List ℕ → Outcome (List ℕ)
copy_in xs zero ds = overwrite xs ds
copy_in [] (suc off) ds = fault
copy_in (x ∷ xs) (suc off) ds = put_front x (copy_in xs off ds)

-- `f(&buf[off], ...)`, where `f` writes to the rest of the buffer and returns a size.
unfoldable pub write_at : List ℕ → ℕ → (List ℕ → Outcome (List ℕ × ℕ)) → Outcome (List ℕ × ℕ)
write_at xs zero f = f xs
write_at [] (suc off) f = fault
write_at (x ∷ xs) (suc off) f = write_at xs off f >>= λ r. done (x ∷ r.0, r.1)

pub copy_out-take : (n : ℕ) (xs : List ℕ) → n ≤ length xs → copy_out n xs ≡ done (take n xs)
unfolding copy_out
copy_out-take zero xs h = refl
copy_out-take (suc n) [] h = absurd (omega arith)
copy_out-take (suc n) (x ∷ xs) h = ap (put_front x) (copy_out-take n xs (omega arith))

pub overwrite_fits :
    (xs ds : List ℕ) → length ds ≤ length xs → overwrite xs ds ≡ done (ds ++ drop (length ds) xs)
unfolding overwrite
overwrite_fits xs [] h = refl
overwrite_fits [] (d ∷ ds) h = absurd (omega arith)
overwrite_fits (x ∷ xs) (d ∷ ds) h = ap (put_front d) (overwrite_fits xs ds (omega arith))

pub overwrite_overflow : (xs ds : List ℕ) → length xs < length ds → overwrite xs ds ≡ fault
unfolding overwrite
overwrite_overflow xs [] h = absurd (omega arith)
overwrite_overflow [] (d ∷ ds) h = refl
overwrite_overflow (x ∷ xs) (d ∷ ds) h = ap (put_front d) (overwrite_overflow xs ds (omega arith))

-- A write behind a prefix leaves the prefix.
pub write_at-append :
    (xs ys : List ℕ) (f : List ℕ → Outcome (List ℕ × ℕ))
    → write_at (xs ++ ys) (length xs) f ≡ (f ys >>= λ r. done (xs ++ r.0, r.1))
unfolding write_at
write_at-append [] ys f = ground arith
write_at-append (x ∷ xs) ys f = rw (write_at-append xs ys f) (ground arith)

pub overwrite-append :
    (buf xs ys : List ℕ)
    → length xs ≤ length buf
    → overwrite buf (xs ++ ys) ≡ (overwrite (drop (length xs) buf) ys >>= λ r. done (xs ++ r))
unfolding overwrite
overwrite-append buf [] ys h = ground arith
overwrite-append [] (x ∷ xs) ys h = absurd (omega arith)
overwrite-append (b ∷ buf) (x ∷ xs) ys h =
    rw (overwrite-append buf xs ys (omega arith)) (ground arith)
