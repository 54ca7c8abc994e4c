-- ===== src/User/SysErr.antt =====
-- syscalls/ece391syserr.c: the tests of the calls' error behaviour. A test's result is its state at the
-- end and what it returns, 0 if it passes and 2 if it fails. `locals` is what a test's buffer holds at
-- first, and `fuel` bounds the search for the end of a message.
use system_engineering.Base.{
  ℕ, zero, suc, ◌+◌, List, [], ◌∷◌, ◌++◌, Option, none, some, ◌==◌, ◌||◌, ltb, if◌then◌else◌, Mem,
}
use system_engineering.Base.Int.{ℤ, pos, negsuc, sub_ℕ, eqb_ℤ}
use system_engineering.Base.Text.{codes, text}
use system_engineering.Kernel.{Kernel}
use system_engineering.Scheduler.{vidmap}
use system_engineering.User.{Calls}
use system_engineering.User.Support.{ece391_fdputs}
use system_engineering.User.Programs.{line, failed}
pub mod Lemmas
pub mod Passes
pub mod Opens
pub mod Unopened
pub mod All
mod Tests

abbrev pub neg_fd : ℤ
neg_fd = negsuc 1073741822

abbrev pub big_fd : ℤ
big_fd = pos 1073741823

abbrev pub neg_num : ℤ
neg_num = negsuc 1073741822

abbrev pub big_num : ℤ
big_num = pos 1073741823

-- `vidmap` as a call: what it writes to its argument is not used.
abbrev pub kernel_vidmap : (table : ℕ) → Kernel → ℕ → Option (Kernel × ℤ)
kernel_vidmap table k screen_start =
    let (k', code, written) = vidmap table k screen_start in some (k', code)

-- `system_call_asm`: the number is compared without a sign, and `dispatch` stands for the jump table.
abbrev pub system_call :
    (dispatch : Kernel → ℕ → Option (Kernel × ℤ)) → Kernel → ℤ → Option (Kernel × ℤ)
system_call dispatch k (negsuc n) = some (k, negsuc 0)
system_call dispatch k (pos n) = if ltb 10 n || ltb n 1 then some (k, negsuc 0) else dispatch k n

-- `vidmap` and `call_sys` are the two calls that only this program makes.
module _ (calls : Calls) (vidmap : calls.State → ℕ → Option (calls.State × ℤ))
    (call_sys : calls.State → ℤ → Option (calls.State × ℤ)) (fuel : ℕ) where
  open calls use {State, open_file, read, close_file, write}

  abbrev pub Tested : Type 0
  Tested = Option (State × ℕ)

  -- A message, and what the test returns then.
  pub tell : State → List ℕ → ℕ → Tested
  tell s message fail = elim (ece391_fdputs calls fuel s (pos 1) (text message)) [
    | none ↦ none
    | some s' ↦ some (s', fail)
  ]

  -- `if (-1 != code) { fail = 2; ece391_fdputs(1, message); }`
  pub expect_error : State → (code : ℤ) → (message : List ℕ) → (fail : ℕ) → Tested
  expect_error s code message fail =
      if failed code then some (s, fail) else tell s (message ++ (10 ∷ [])) 2

  -- The same of a call, with what follows.
  pub expect : Option (State × ℤ) → (message : List ℕ) → (fail : ℕ) → (State → ℕ → Tested) → Tested
  expect none message fail next = none
  expect (some (s, code)) message fail next = elim (expect_error s code message fail) [
    | none ↦ none
    | some (s', fail') ↦ next s' fail'
  ]

  -- And of a read, which hands its buffer on.
  pub expect_read :
      Option (State × Mem × ℤ)
      → (message : List ℕ) → (fail : ℕ) → (State → Mem → ℕ → Tested)
      → Tested
  expect_read none message fail next = none
  expect_read (some (s, buf, code)) message fail next = elim (expect_error s code message fail) [
    | none ↦ none
    | some (s', fail') ↦ next s' buf fail'
  ]

  -- The last lines of a test.
  pub verdict : (name : List ℕ) → State → (fail : ℕ) → Tested
  verdict name s fail =
      tell s (name ++ (if fail == 0 then codes ": PASS" else codes ": FAIL") ++ (10 ∷ [])) fail

  -- `err_neg_fd` and `err_big_fd` differ in the descriptor only.
  pub err_fd : (name : List ℕ) → (fd : ℤ) → State → (locals : Mem) → Tested
  err_fd name fd s locals = expect_read (read s fd locals 31) (codes "read fail") 0 (λ s1 buf fail1.
      expect (write s1 fd buf (pos 31)) (codes "write fail") fail1 (λ s2 fail2.
        expect (close_file s2 fd) (codes "close fail") fail2 (λ s3 fail3. verdict name s3 fail3)))

  pub err_neg_fd : State → (locals : Mem) → Tested
  err_neg_fd s locals = err_fd (codes "err_neg_fd") neg_fd s locals

  pub err_big_fd : State → (locals : Mem) → Tested
  err_big_fd s locals = err_fd (codes "err_big_fd") big_fd s locals

  -- The loops of `err_open_lots`: the opens, with how many failed, and the closes.
  pub open_lots : ℕ → State → (cnt : ℕ) → Tested
  open_lots zero s cnt = some (s, cnt)
  open_lots (suc r) s cnt = elim (open_file s (text (codes "."))) [
    | none ↦ none
    | some (s', fd) ↦ open_lots r s' (if failed fd then cnt + 1 else cnt)
  ]

  pub close_lots : ℕ → State → (i : ℕ) → Option State
  close_lots zero s i = some s
  close_lots (suc r) s i = elim (close_file s (pos i)) [
    | none ↦ none
    | some (s', code) ↦ close_lots r s' (i + 1)
  ]

  pub err_open_lots : State → Tested
  err_open_lots s = elim (open_lots 7 s 0) [
    | none ↦ none
    | some (s1, cnt) ↦ elim (close_lots 6 s1 2) [
      | none ↦ none
      | some s2 ↦
          if cnt == 1
          then tell s2 (codes "err_open_lots: PASS" ++ (10 ∷ [])) 0
          else tell s2 (codes "err_open_lots: FAIL" ++ (10 ∷ [])) 2
    ]
  ]

  pub err_open : State → Tested
  err_open s = expect (open_file s (text (codes "helloo"))) (codes "'helloo' fail") 0 (λ s1 fail1.
      expect (open_file s1 (text (codes "shel"))) (codes "'shel' fail") fail1 (λ s2 fail2.
        expect (open_file s2 (text [])) (codes "empty string fail") fail2
          (λ s3 fail3. verdict (codes "err_open") s3 fail3)))

  -- The three loops of `err_unopened`, over the rounds left.
  pub close_each : ℕ → State → (i fail : ℕ) → Tested
  close_each zero s i fail = some (s, fail)
  close_each (suc r) s i fail =
      expect (close_file s (pos i)) (codes "close unopened or invalid fd fail") fail
        (λ s' fail'. close_each r s' (i + 1) fail')

  pub read_each :
      ℕ → State → (i : ℕ) → (buf : Mem) → (fail : ℕ) → (State → Mem → ℕ → Tested) → Tested
  read_each zero s i buf fail next = next s buf fail
  read_each (suc r) s i buf fail next =
      expect_read (read s (pos i) buf 31) (codes "read from unopened fd fail") fail
        (λ s' buf' fail'. read_each r s' (i + 1) buf' fail' next)

  pub write_each : ℕ → State → (i : ℕ) → (buf : Mem) → (fail : ℕ) → Tested
  write_each zero s i buf fail = some (s, fail)
  write_each (suc r) s i buf fail =
      expect (write s (pos i) buf (pos 31)) (codes "write to unopened fd fail") fail
        (λ s' fail'. write_each r s' (i + 1) buf fail')

  -- A test, and what follows it.
  pub then_test : Tested → (State → ℕ → Tested) → Tested
  then_test none next = none
  then_test (some (s, fail)) next = next s fail

  pub err_unopened : State → (locals : Mem) → Tested
  err_unopened s locals = then_test (close_each 8 s 0 0) (λ s1 fail1.
      read_each 6 s1 2 locals fail1 (λ s2 buf fail2.
        then_test (write_each 6 s2 2 buf fail2)
          (λ s3 fail3. verdict (codes "err_unopened") s3 fail3)))

  pub err_vidmap : State → Tested
  err_vidmap s = expect (vidmap s 0) (codes "Null pointer fail") 0 (λ s1 fail1.
      expect (vidmap s1 0x400000) (codes "Kernel pointer fail fail") fail1
        (λ s2 fail2. verdict (codes "err_vidmap") s2 fail2))

  pub err_stdin_out : State → (locals : Mem) → Tested
  err_stdin_out s locals =
      expect (write s (pos 0) locals (pos 31)) (codes "write to stdin fail") 0 (λ s1 fail1.
        expect_read (read s1 (pos 1) locals 31) (codes "read from stdout fail") fail1
          (λ s2 buf fail2. verdict (codes "err_stdin_out") s2 fail2))

  pub err_syscall_num : State → Tested
  err_syscall_num s = expect (call_sys s big_num) (codes "syscall 0 fail") 0 (λ s1 fail1.
      expect (call_sys s1 neg_num) (codes "big num syscall fail") fail1 (λ s2 fail2.
        expect (call_sys s2 (pos 0)) (codes "neg num syscall fail") fail2
          (λ s3 fail3. verdict (codes "err_syscall_num") s3 fail3)))

  -- A test whose result is added to those before.
  pub add_test : Tested → (fail : ℕ) → (State → ℕ → Tested) → Tested
  add_test t fail next = then_test t (λ s more. next s (fail + more))

  -- All tests in turn.
  pub run_all : State → (locals : Mem) → Tested
  run_all s locals = add_test (err_neg_fd s locals) 0 (λ s1 fail1.
      add_test (err_big_fd s1 locals) fail1 (λ s2 fail2.
        add_test (err_open_lots s2) fail2 (λ s3 fail3. add_test (err_open s3) fail3 (λ s4 fail4.
          add_test (err_unopened s4 locals) fail4 (λ s5 fail5.
            add_test (err_vidmap s5) fail5 (λ s6 fail6.
              add_test (err_stdin_out s6 locals) fail6 (λ s7 fail7.
                add_test (err_syscall_num s7) fail7 (λ s8 fail8.
                  tell s8
                    ((10 ∷ codes "Overall Tests: ")
                      ++ (if fail8 == 0 then codes "PASS" else codes "FAIL")
                      ++ (10 ∷ []))
                    fail8))))))))

  -- The switch on the first character that was typed, less that of 0.
  pub select_test : State → (locals : Mem) → ℤ → Tested
  select_test s locals (negsuc n) =
      tell s (codes "Invalid test number. Choose from tests 1-8 or 0") 0
  select_test s locals (pos n) =
      if n == 0
      then run_all s locals
      else if n == 1
      then err_neg_fd s locals
      else if n == 2
      then err_big_fd s locals
      else if n == 3
      then err_open_lots s
      else if n == 4
      then err_open s
      else if n == 5
      then err_unopened s locals
      else if n == 6
      then err_vidmap s
      else if n == 7
      then err_stdin_out s locals
      else if n == 8
      then err_syscall_num s
      else tell s (codes "Invalid test number. Choose from tests 1-8 or 0") 0

  pub syserr : State → (locals : Mem) → Tested
  syserr s locals =
      elim (ece391_fdputs calls fuel s (pos 1)
        (text (codes "Choose from tests 1-8. 0 to run all: "))) [
          | none ↦ none
          | some s1 ↦ elim (read s1 (pos 0) locals 127) [
            | none ↦ none
            | some (s2, buf, cnt) ↦
                if failed cnt
                then tell s2 (codes "Can't read test #" ++ (10 ∷ [])) 2
                else select_test s2 locals (sub_ℕ (buf 0) 48)
          ]
        ]
