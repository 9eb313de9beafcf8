-- ===== src/Sync/Locked/Locks.antt =====
-- The locks: a pthread mutex, a spinlock on an atomic test-and-set, and a binary semaphore.
use cp.Common.{ℕ, ◌+◌, ◌-◌, ◌≡◌, refl, ltb, ◌==◌, if◌then◌else◌, Option, none, some}
use cp.Sync.Locked.{Lock}

-- What the threads rely on: the lock is in one of two states, and only a free one is taken.
pub record IsLock (l : Lock) (held : ℕ) : Type 0 where
  pub takes : l.acquire l.init ≡ some held
  pub waits : l.acquire held ≡ none
  pub frees : l.release held ≡ l.init

-- pthread_mutex_lock and pthread_mutex_unlock, on 1 while it is locked.
abbrev pub mutex : Lock
mutex = record { init = 0; acquire = λ m. if m == 0 then some 1 else none; release = λ m. 0 }

-- `spinlock_lock` and `spinlock_unlock`: __sync_lock_test_and_set writes 1 and returns what was there.
abbrev pub spinlock_lock : ℕ → Option ℕ
spinlock_lock flag = if flag == 0 then some 1 else none

abbrev pub spinlock_unlock : ℕ → ℕ
spinlock_unlock flag = 0

abbrev pub spinlock : Lock
spinlock = record { init = 0; acquire = spinlock_lock; release = spinlock_unlock }

-- sem_wait and sem_post, on the value of the semaphore.
abbrev pub semaphore : Lock
semaphore = record {
  init = 1;
  acquire = λ v. if ltb 0 v then some (v - 1) else none;
  release = λ v. v + 1;
}

pub mutex-IsLock : IsLock mutex 1
mutex-IsLock = record { takes = refl; waits = refl; frees = refl }

pub spinlock-IsLock : IsLock spinlock 1
spinlock-IsLock = record { takes = refl; waits = refl; frees = refl }

pub semaphore-IsLock : IsLock semaphore 0
semaphore-IsLock = record { takes = refl; waits = refl; frees = refl }
