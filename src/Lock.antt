-- ===== src/Lock.antt =====
-- kernel/lib/lock.cpp: the spin lock, once as the calls of one processor and once as the steps that any
-- number of processors take at the same lock word.
pub mod Alone
pub mod Exclusion
use optimist_os.Common.{
  ℕ, zero, suc, Bool, true, false, Option, none, some, ◌≡◌, ◌==◌, ◌!=◌, if◌then◌else◌,
}

-- `__sync_lock_test_and_set(&lock, 1)`: the old word, and the new one. The processor does both at once.
abbrev pub test_and_set : ℕ → ℕ × ℕ
test_and_set word = (word, 1)

-- `lock` with no other processor at the word: the word when it returns, `none` when the rounds run out.
unfoldable pub lock : ℕ → ℕ → Option ℕ
lock zero word = none
lock (suc rounds) word =
    let (old, word') = test_and_set word in
    let again = lock rounds word' in if old != 0 then again else some word'

-- `__sync_lock_release(&lock)` stores 0.
unfoldable pub unlock : ℕ → ℕ
unlock word = 0

-- Where a processor stands: outside `lock`, in its loop, or behind it.
pub data Phase : Type 0 where
  outside spinning holding : Phase

pub record System : Type 0 where
  pub word : ℕ
  pub phase : ℕ → Phase

abbrev pub move : (ℕ → Phase) → ℕ → Phase → ℕ → Phase
move f i p j = if j == i then p else f j

-- What the test in the loop of `lock` makes of the old word.
abbrev pub after_test : ℕ → Phase
after_test old = if old != 0 then spinning else holding

-- One processor moves: it calls `lock`, it runs one round of the loop, or it calls `unlock` behind a
-- `lock` of its own.
pub data Step : System → System → Type 0 where
  call :
      (s : System) (i : ℕ)
      → s.phase i ≡ outside
      → Step s (record s { phase = move s.phase i spinning })
  round :
      (s : System) (i : ℕ)
      → s.phase i ≡ spinning
      → Step s (record {
        word = (test_and_set s.word).1;
        phase = move s.phase i (after_test (test_and_set s.word).0);
      })
  release :
      (s : System) (i : ℕ)
      → s.phase i ≡ holding
      → Step s (record { word = unlock s.word; phase = move s.phase i outside })

pub data Reach (s : System) : System → Type 0 where
  here : Reach s s
  next : {t u : System} → Reach s t → Step t u → Reach s u

-- No processor has called `lock`, and the word has its initial value `uint32_t mutex = 0`.
abbrev pub initial : System
initial = record { word = 0; phase = λ i. outside }
