-- ===== src/User/Support/Output.antt =====
-- What `ece391_fdputs` writes.
use system_engineering.Base.{
  ℕ, zero, suc, ◌+◌, ◌≤◌, ◌<◌, true, List, length, some, Mem, ◌≡◌, refl, arith,
}
use system_engineering.Base.Int.{ℤ, pos}
use system_engineering.Base.Text.{text}
use system_engineering.CString.Props.{IsString, no_nul, text-IsString}
use system_engineering.User.{Calls}
use system_engineering.User.Support.{ece391_strlen, strlen_rounds, ece391_fdputs}

strlen_rounds_lem :
    (k : ℕ) (s : Mem) (n len : ℕ)
    → IsString s n
    → len ≤ n
    → n < len + k
    → strlen_rounds k s len ≡ some n
unfolding strlen_rounds
strlen_rounds_lem zero s n len h le lt = absurd (omega arith)
strlen_rounds_lem (suc k) s n len h le lt =
    ground (arith, h.ends, h.runs len, strlen_rounds_lem k s n (len + 1) h)

-- A string goes to the descriptor as one write of its length.
pub fdputs-IsString :
    (calls : Calls) (fuel : ℕ) (s : calls.State) (fd : ℤ) (str : Mem) (n : ℕ) {s' : calls.State}
    {count : ℤ}
    → IsString str n
    → n < fuel
    → calls.write s fd str (pos n) ≡ some (s', count)
    → ece391_fdputs calls fuel s fd str ≡ some s'
unfolding ece391_fdputs ece391_strlen
fdputs-IsString calls fuel s fd str n h enough written =
    rw (ece391_fdputs, strlen_rounds_lem fuel str n 0 h (omega arith) (omega arith))
      (rw written refl)

pub fdputs-write :
    (calls : Calls) (fuel : ℕ) (s : calls.State) (fd : ℤ) (cs : List ℕ) {s' : calls.State}
    {count : ℤ}
    → no_nul cs ≡ true
    → length cs < fuel
    → calls.write s fd (text cs) (pos (length cs)) ≡ some (s', count)
    → ece391_fdputs calls fuel s fd (text cs) ≡ some s'
fdputs-write calls fuel s fd cs clean enough written =
    fdputs-IsString calls fuel s fd (text cs) (length cs) (text-IsString cs clean) enough written
