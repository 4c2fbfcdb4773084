-- ===== src/Sensor/Board.antt =====
-- The lock of SubSensorController.cpp, and the callbacks that write to the sensor board under it.
-- The mutex is whether it is locked. Unlocking a free one is taken to succeed and to change nothing.
use guillemot_core.Prelude.{
  ℕ, ◌+◌, ◌%◌, List, [], ◌∷◌, Bool, true, false, not, ◌&&◌, leb, if◌then◌else◌, length, get_or,
}
use guillemot_core.Prelude.Run.{Run, done, hang, ◌>>=◌}

abbrev pub Mutex : Type 0
Mutex = Bool

-- pthread_mutex_trylock and pthread_mutex_unlock: whether they return 0, and the mutex.
abbrev pub try_lock : Mutex → Bool × Mutex
try_lock locked = (not locked, true)

abbrev pub unlock : Mutex → Bool × Mutex
unlock locked = (true, false)

unfoldable pub check_lock : Mutex → Bool × Mutex
check_lock = try_lock

-- It unlocks, as the code has it.
unfoldable pub get_lock : Mutex → Bool × Mutex
get_lock = unlock

unfoldable pub release_lock : Mutex → Bool × Mutex
release_lock = unlock

-- `while (!checkLock());`: with no other thread to unlock it, a locked mutex stays locked.
unfoldable pub check_lock_loop : Mutex → Run (Bool × Mutex)
unfolding check_lock
check_lock_loop locked = let (ok, m) = check_lock locked in if ok then done (true, m) else hang

-- The call of write: the bytes, and whether the mutex was locked at that time.
pub record Write : Type 0 where
  pub bytes : List ℕ
  pub locked : Bool

-- The part of a callback from the lock on.
unfoldable pub locked_write : Mutex → List ℕ → Run (Mutex × List Write)
locked_write m bytes = do
  (ok, m) ← check_lock_loop m
  let (got, m) = get_lock m
  if ok && got
      then (let (_, m') = release_lock m in done (m', record { bytes = bytes; locked = m } ∷ []))
      else done (m, [])

-- An `uint8_t` sum with '0'.
abbrev pub digit_of : ℕ → ℕ
digit_of d = (d + b'0') % 256

unfoldable pub torpedo_callback : Mutex → (msg : ℕ) → Run (Mutex × List Write)
torpedo_callback m msg = locked_write m (b'S' ∷ b'T' ∷ digit_of msg ∷ b'0' ∷ b'E' ∷ [])

unfoldable pub dropper_callback : Mutex → (msg : List ℕ) → Run (Mutex × List Write)
dropper_callback m msg =
    if leb 2 (length msg)
    then locked_write m
        (b'S' ∷ b'D' ∷ digit_of (get_or msg 0 0) ∷ digit_of (get_or msg 1 0) ∷ b'E' ∷ [])
    else done (m, [])
