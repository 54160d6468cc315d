-- ===== src/Threads/Name.antt =====
-- set_thread_name of src/lib/thread_mgr/thread_mgr.c.
use Prim.Native.String.{String}
use Prim.Native.Char.{code}
use legacy_point_monitor.Common.{ℕ, zero, suc, ◌+◌, ◌%◌, List, [], ◌∷◌, ◌++◌, get_or}

abbrev pub codes : String → List ℕ
codes String.[] = []
codes (String.◌∷◌ c s) = code c ∷ codes s

-- The 36 bytes before the NUL.
abbrev pub charset : List ℕ
charset = codes "QWERTYUIOPASDFGHJKLZXCVBNM1234567890"

abbrev pub thread_name_size : ℕ
thread_name_size = 7

-- `char name[10]` in ThreadInfo.
abbrev pub name_capacity : ℕ
name_capacity = 10

-- `for (n = ...; n < size; n++) str[n] = charset[rand() % 36];`, with the results of `rand`.
unfoldable pub name_loop : (ℕ → ℕ) → ℕ → ℕ → List ℕ
name_loop rand n zero = []
name_loop rand n (suc rounds) = get_or charset (rand n % 36) 0 ∷ name_loop rand (n + 1) rounds

-- The bytes written, with the NUL behind them; nothing for a size of zero.
unfoldable pub set_thread_name : (ℕ → ℕ) → ℕ → List ℕ
unfolding name_loop
set_thread_name rand zero = []
set_thread_name rand (suc size) = name_loop rand 0 size ++ 0 ∷ []
