-- ===== src/Relay/MainLoop.antt =====
-- The thread of RtspServer::runMainLoop in DeviceServer/src/RtspServer.cpp, and the part of
-- RtspServer::stop that quits the loop and joins the thread. GLib's main loop is a parameter.
use device_app.Base.{ℕ, zero, suc, ◌≡◌, refl, Bool, true, false, if◌then◌else◌}

-- g_main_loop_new, what g_main_loop_run sets as it begins, g_main_loop_quit and
-- g_main_loop_is_running.
pub record MainLoops (L : Type 0) : Type 0 where
  pub new_loop : L
  pub begin : L → L
  pub quit : L → L
  pub is_running : L → Bool

-- Where the thread is, with the loop that it has stored.
pub data LoopThread (L : Type 0) : Type 0 where
  entered : LoopThread L
  made inside returned : L → LoopThread L

abbrev pub has_returned : {L : Type 0} → LoopThread L → Bool
has_returned entered = false
has_returned (made l) = false
has_returned (inside l) = false
has_returned (returned l) = true

-- The thread has come to g_main_loop_run.
abbrev pub has_begun : {L : Type 0} → LoopThread L → Bool
has_begun entered = false
has_begun (made l) = false
has_begun (inside l) = true
has_begun (returned l) = true

module _ {L : Type 0} (glib : MainLoops L) where
  -- One statement of the thread; g_main_loop_run goes on while the loop is running.
  unfoldable pub run_main_loop : LoopThread L → LoopThread L
  run_main_loop entered = made glib.new_loop
  run_main_loop (made l) = inside (glib.begin l)
  run_main_loop (inside l) = if glib.is_running l then inside l else returned l
  run_main_loop (returned l) = returned l

  unfoldable pub quit_loop : LoopThread L → LoopThread L
  quit_loop entered = entered
  quit_loop (made l) = made (glib.quit l)
  quit_loop (inside l) = inside (glib.quit l)
  quit_loop (returned l) = returned (glib.quit l)

  -- Whether the thread ends within so many statements of its own.
  unfoldable pub join_thread : ℕ → LoopThread L → Bool
  unfolding run_main_loop
  join_thread zero t = has_returned t
  join_thread (suc n) t = join_thread n (run_main_loop t)

  unfoldable pub stop_joins : ℕ → LoopThread L → Bool
  unfolding quit_loop join_thread
  stop_joins n t = join_thread n (quit_loop t)

  running-waits : (n : ℕ) (l : L) → glib.is_running l ≡ true → join_thread n (inside l) ≡ false
  unfolding join_thread run_main_loop
  running-waits zero l on = refl
  running-waits (suc n) l on = rw on (running-waits n l on)

  made-waits :
      ((l : L) → glib.is_running (glib.begin l) ≡ true)
      → (n : ℕ) (l : L) → join_thread n (made l) ≡ false
  unfolding join_thread run_main_loop
  made-waits begins zero l = refl
  made-waits begins (suc n) l = running-waits n (glib.begin l) (begins l)

  entered-waits :
      ((l : L) → glib.is_running (glib.begin l) ≡ true) → (n : ℕ) → join_thread n entered ≡ false
  unfolding join_thread run_main_loop
  entered-waits begins zero = refl
  entered-waits begins (suc n) = made-waits begins n glib.new_loop

  ended-joins : (n : ℕ) (l : L) → join_thread n (returned l) ≡ true
  unfolding join_thread run_main_loop
  ended-joins zero l = refl
  ended-joins (suc n) l = ended-joins n l

  -- When a loop is running once g_main_loop_run has begun on it and is not running once it was
  -- quit: the join in RtspServer::stop ends, after one statement of the thread at the latest,
  -- exactly if the thread had come to g_main_loop_run before; otherwise it waits however long the
  -- thread goes on.
  pub stop_joins_begun :
      ((l : L) → glib.is_running (glib.begin l) ≡ true)
      → ((l : L) → glib.is_running (glib.quit l) ≡ false)
      → (t : LoopThread L) (n : ℕ) → stop_joins (suc n) t ≡ has_begun t
  unfolding stop_joins quit_loop join_thread run_main_loop
  stop_joins_begun begins quits entered n = made-waits begins n glib.new_loop
  stop_joins_begun begins quits (made l) n = running-waits n _ (begins (glib.quit l))
  stop_joins_begun begins quits (inside l) n = rw (quits l) (ended-joins n (glib.quit l))
  stop_joins_begun begins quits (returned l) n = ended-joins n (glib.quit l)
