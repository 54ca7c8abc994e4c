-- ===== src/User/View.antt =====
-- What a program needs of the calls on an open file: an interface with laws.
use system_engineering.Base.{ℕ, ◌<◌, List, [], ◌++◌, length, ◌≡◌, some, Mem}
use system_engineering.Base.Int.{ℤ, pos}
use system_engineering.Base.Text.{bytes_of}
use system_engineering.User.{Calls}

module _ (calls : Calls) (fd : ℤ) where
  open calls use {State, read, write}

  -- The file `fd` read in blocks of 1024, and the terminal as file 1: in a valid state there is text that
  -- remains to be read, and `Shows s s' cs` says that the text `cs` was written from `s` to `s'`.
  pub record FileView : Type 1 where
    pub Valid : State → Type 0
    pub remaining : State → List ℕ
    pub Shows : State → State → List ℕ → Type 0
    pub shows_both :
        {s s1 s2 : State} {cs ds : List ℕ} → Shows s s1 cs → Shows s1 s2 ds → Shows s s2 (cs ++ ds)
    pub read_end :
        (s : State) (buf : Mem)
        → Valid s
        → length (remaining s) ≡ 0
        → (s' : State) × (buf' : Mem) × (read s fd buf 1024 ≡ some (s', buf', pos 0))
          × Shows s s' []
    pub read_more :
        (s : State) (buf : Mem)
        → Valid s
        → 0 < length (remaining s)
        → (s' : State) × (buf' : Mem) × (n : ℕ) × (0 < n)
          × (read s fd buf 1024 ≡ some (s', buf', pos n))
          × Valid s'
          × Shows s s' []
          × (remaining s ≡ bytes_of n buf' 0 ++ remaining s')
    pub write_all :
        (s : State) (buf : Mem) (n : ℕ)
        → Valid s
        → (s' : State) × (written : ℕ) × (write s (pos 1) buf (pos n) ≡ some (s', pos written))
          × Valid s'
          × Shows s s' (bytes_of n buf 0)
          × (remaining s' ≡ remaining s)
