-- ===== src/Threads/NameBytes.antt =====
-- The bytes of a thread's name.
use native.Mathlib.Nat.{mod-lt}
use legacy_point_monitor.Common.{
  ℕ, zero, suc, ◌+◌, ◌-◌, ◌%◌, ◌<◌, ◌≤◌, ◌≡◌, refl, ap, Bool, true, ◌&&◌, ◌||◌, List, [], ◌∷◌, ◌++◌,
  leb, arith, length, get_or, length-append,
}
use legacy_point_monitor.Threads.Name.{
  charset, name_loop, set_thread_name, thread_name_size, name_capacity,
}

-- A digit or a capital letter.
abbrev pub is_letter : ℕ → Bool
is_letter b = (leb 48 b && leb b 57) || (leb 65 b && leb b 90)

all_letters : List ℕ → Bool
all_letters [] = true
all_letters (b ∷ bs) = is_letter b && all_letters bs

letter_at :
    (bs : List ℕ) (i : ℕ) → all_letters bs ≡ true → i < length bs → is_letter (get_or bs i 0) ≡ true
unfolding all_letters
letter_at [] i all lt = elim lt [ ]
letter_at (b ∷ bs) zero all lt = ground arith
letter_at (b ∷ bs) (suc i) all lt = letter_at bs i (ground arith) (omega arith)

charset_letters : all_letters charset ≡ true
unfolding all_letters
charset_letters = refl

length-name_loop : (rand : ℕ → ℕ) (n rounds : ℕ) → length (name_loop rand n rounds) ≡ rounds
unfolding name_loop
length-name_loop rand n zero = refl
length-name_loop rand n (suc rounds) = ap suc (length-name_loop rand (n + 1) rounds)

-- A C string that fills `size` bytes: digits and capital letters, and the NUL behind them.
pub record IsName (size : ℕ) (bytes : List ℕ) : Type 0 where
  pub fills : length bytes ≡ size
  pub ends : get_or bytes (size - 1) 1 ≡ 0
  pub letters : (i : ℕ) → i < size - 1 → is_letter (get_or bytes i 0) ≡ true

name_loop-ends :
    (rand : ℕ → ℕ) (n rounds : ℕ) → get_or (name_loop rand n rounds ++ 0 ∷ []) rounds 1 ≡ 0
unfolding name_loop
name_loop-ends rand n zero = refl
name_loop-ends rand n (suc rounds) = name_loop-ends rand (n + 1) rounds

name_loop-letters :
    (rand : ℕ → ℕ) (n rounds i : ℕ)
    → i < rounds
    → is_letter (get_or (name_loop rand n rounds ++ 0 ∷ []) i 0) ≡ true
unfolding name_loop
name_loop-letters rand n zero i lt = elim lt [ ]
name_loop-letters rand n (suc rounds) zero lt =
    letter_at charset (rand n % 36) charset_letters (mod-lt (rand n) (omega arith))
name_loop-letters rand n (suc rounds) (suc i) lt =
    name_loop-letters rand (n + 1) rounds i (omega arith)

set-IsName : (rand : ℕ → ℕ) (n : ℕ) → IsName (suc n) (set_thread_name rand (suc n))
unfolding set_thread_name
set-IsName rand n =
    let last : suc n - 1 ≡ n = omega arith in
    record {
      fills = omega (arith, length-append (name_loop rand 0 n) (0 ∷ []), length-name_loop rand 0 n);
      ends = rw last (name_loop-ends rand 0 n);
      letters = λ i lt. name_loop-letters rand 0 n i (omega arith);
    }

-- Whatever rand returns, the name that th_execute gives a thread is six digits or capital letters
-- and a NUL, seven bytes, which fit into the ten of the record.
pub set_thread_name-IsName :
    (rand : ℕ → ℕ)
    → IsName 7 (set_thread_name rand thread_name_size)
      × (length (set_thread_name rand thread_name_size) ≤ name_capacity)
set_thread_name-IsName rand = let named = set-IsName rand 6 in (named, omega (arith, named.fills))
