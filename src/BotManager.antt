-- ===== src/BotManager.antt =====
-- core/bot_manager.py: which resellers' bots run. Of a running bot only its reseller is kept. `starts`
-- says whether the calls that set a bot up return: decrypt_token, Bot and set_my_commands; `closes`
-- says so of the session's close. `running` is the dict `_running`: a bot whose polling has ended with
-- an exception stays in it.
pub mod Sync
use baste.Prelude.{
  is_in, ℕ, Bool, true, false, ◌&&◌, ◌||◌, not, List, [], ◌∷◌, ◌++◌, ◌==◌, if◌then◌else◌, keep, map,
}
use baste.Table.{select}
use baste.Table.Deletes.{ids}
use baste.Schema.{Db, Reseller, ResellerStatus}
use baste.Exec.{Result, ok, err, runtime_error}

unfoldable pub is_active_status : ResellerStatus → Bool
is_active_status ResellerStatus.active = true
is_active_status ResellerStatus.suspended = false

-- The ids of `SELECT * FROM resellers WHERE status = 'active'`.
unfoldable pub active_ids : Db → List ℕ
unfolding is_active_status
active_ids s = ids (select (λ _ r. is_active_status r.status) s.resellers)

unfoldable pub start_bot : (ℕ → Bool) → ℕ → List ℕ → Result Unit × List ℕ
unfolding is_in
start_bot starts reseller_id running =
    if is_in running reseller_id
    then (ok tt, running)
    else if starts reseller_id
    then (ok tt, running ++ reseller_id ∷ [])
    else (err runtime_error, running)

-- The bot is taken out of the dict before its session is closed.
unfoldable pub stop_bot : (ℕ → Bool) → ℕ → List ℕ → Result Unit × List ℕ
unfolding is_in keep
stop_bot closes reseller_id running =
    if is_in running reseller_id
    then (
      if closes reseller_id then ok tt else err runtime_error,
      keep (λ i. not (i == reseller_id)) running,
    )
    else (ok tt, running)

-- What follows runs if the call has returned.
unfoldable pub on_return :
    Result Unit × List ℕ → (List ℕ → Result Unit × List ℕ) → Result Unit × List ℕ
on_return (ok _, running) f = f running
on_return (err e, running) f = (err e, running)

unfoldable pub start_each : (ℕ → Bool) → List ℕ → List ℕ → Result Unit × List ℕ
unfolding on_return start_bot
start_each starts [] running = (ok tt, running)
start_each starts (i ∷ rest) running =
    on_return (if is_in running i then (ok tt, running) else start_bot starts i running)
      (start_each starts rest)

unfoldable pub stop_each : (ℕ → Bool) → List ℕ → List ℕ → List ℕ → Result Unit × List ℕ
unfolding on_return stop_bot
stop_each closes active [] running = (ok tt, running)
stop_each closes active (i ∷ rest) running =
    on_return (if is_in active i then (ok tt, running) else stop_bot closes i running)
      (stop_each closes active rest)

-- The second loop goes over the keys as they are when it begins.
unfoldable pub sync_once : (ℕ → Bool) → (ℕ → Bool) → Db → List ℕ → Result Unit × List ℕ
unfolding active_ids start_each stop_each on_return
sync_once starts closes s running =
    on_return (start_each starts (active_ids s) running)
      (λ now. stop_each closes (active_ids s) now now)

-- A round of the main loop: an exception is logged, and what was done stays.
pub record Round : Type 0 where
  pub db : Db
  pub starts : ℕ → Bool
  pub closes : ℕ → Bool

unfoldable pub run_rounds : List Round → List ℕ → List ℕ
unfolding sync_once
run_rounds [] running = running
run_rounds (r ∷ rest) running = run_rounds rest (sync_once r.starts r.closes r.db running).1

unfoldable pub stop_all : (ℕ → Bool) → List ℕ → List ℕ → Result Unit × List ℕ
unfolding on_return stop_bot
stop_all closes [] running = (ok tt, running)
stop_all closes (i ∷ rest) running = on_return (stop_bot closes i running) (stop_all closes rest)

unfoldable pub shutdown : (ℕ → Bool) → List ℕ → Result Unit × List ℕ
unfolding stop_all
shutdown closes running = stop_all closes running running
