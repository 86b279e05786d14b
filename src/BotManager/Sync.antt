-- ===== src/BotManager/Sync.antt =====
-- core/bot_manager.py: after a round the bots that run are those of the active resellers.
use baste.Prelude.{
  is_in, ℕ, ◌≡◌, inl, inr, refl, Bool, true, false, ◌&&◌, ◌||◌, not, List, [], ◌∷◌, ◌++◌, arith,
  ◌==◌, keep, Bool-cases, ==_iff, ap, subst, none, some, ◌∙◌,
}
use baste.Table.{find}
use baste.Table.Keys.{IsKeyed}
use baste.Table.Deletes.{is_in-select}
use baste.Schema.{Db}
use baste.Exec.{Result, ok, err, runtime_error}
use baste.BotManager.{
  is_active_status, active_ids, start_bot, stop_bot, on_return, start_each, stop_each, sync_once,
}

running-append : (l m : List ℕ) (k : ℕ) → is_in (l ++ m) k ≡ is_in l k || is_in m k
unfolding is_in
running-append [] m k = refl
running-append (i ∷ l) m k = ground (arith, running-append l m k)

running-keep :
    (j : ℕ) (l : List ℕ) (k : ℕ) → is_in (keep (λ i. not (i == j)) l) k ≡ is_in l k && not (k == j)
unfolding is_in keep
running-keep j [] k = refl
running-keep j (i ∷ l) k = elim (Bool-cases (not (i == j))) [
  | inl kept ↦ rw (kept, keep) (ground (arith, kept, running-keep j l k))
  | inr dropped ↦ rw (dropped, keep) (ground (arith, dropped, running-keep j l k))
]

is_in_self : (l : List ℕ) (i k : ℕ) → i == k ≡ true → is_in l i ≡ is_in l k
is_in_self l i k e = ap (is_in l) ((==_iff i k).0 e)

-- Starting stops no bot.
pub start_each-keeps :
    (starts : ℕ → Bool) (l running : List ℕ) (k : ℕ)
    → is_in running k ≡ true
    → is_in (start_each starts l running).1 k ≡ true
unfolding start_each start_bot on_return
start_each-keeps starts [] running k h = h
start_each-keeps starts (i ∷ rest) running k h = elim (Bool-cases (is_in running i)) [
  | inl there ↦ rw there (start_each-keeps starts rest running k h)
  | inr absent ↦ elim (Bool-cases (starts i)) [
    | inl up ↦
        rw (absent, up)
          (start_each-keeps starts rest _ k (rw (running-append running (i ∷ []) k) (rw h refl)))
    | inr down ↦ rw (absent, down) h
  ]
]

-- If the starts return, the bots of the list run besides those that ran.
pub start_each-ok :
    (starts : ℕ → Bool) (l running : List ℕ) (k : ℕ)
    → (start_each starts l running).0 ≡ ok tt
    → is_in (start_each starts l running).1 k ≡ is_in running k || is_in l k
unfolding start_each start_bot on_return is_in
start_each-ok starts [] running k h = ground arith
start_each-ok starts (i ∷ rest) running k h = elim (Bool-cases (is_in running i)) [
  | inl there ↦ rw there (
      let more = start_each-ok starts rest running k (rw there at h) in
      ground (arith, more, there, is_in_self running i k))
  | inr absent ↦ elim (Bool-cases (starts i)) [
    | inl up ↦
        rw (absent, up)
          (let more = start_each-ok starts rest (running ++ i ∷ []) k (rw (absent, up) at h) in
            ground (arith, more, running-append running (i ∷ []) k))
    | inr down ↦ ground (arith, absent, down)
  ]
]

-- Stopping goes over a list of keys: of these, only those of active resellers are left.
pub stop_each-ok :
    (closes : ℕ → Bool) (active l running : List ℕ) (k : ℕ)
    → (stop_each closes active l running).0 ≡ ok tt
    → is_in (stop_each closes active l running).1 k
      ≡ is_in running k && (is_in active k || not (is_in l k))
unfolding stop_each stop_bot on_return is_in
stop_each-ok closes active [] running k h = ground arith
stop_each-ok closes active (i ∷ rest) running k h = elim (Bool-cases (is_in active i)) [
  | inl stays ↦ rw stays (
      let more = stop_each-ok closes active rest running k (rw stays at h) in
      ground (arith, more, stays, is_in_self active i k))
  | inr goes ↦ elim (Bool-cases (is_in running i)) [
    | inr absent ↦
        rw (goes, absent)
          (let more = stop_each-ok closes active rest running k (rw (goes, absent) at h) in
            ground (arith, more, absent, goes, is_in_self running i k, is_in_self active i k))
    | inl there ↦ elim (Bool-cases (closes i)) [
      | inl closed ↦
          rw (goes, there, closed)
            (let more =
                stop_each-ok closes active rest (keep (λ j. not (j == i)) running) k
                  (rw (goes, there, closed) at h) in
              ground (arith, more, running-keep i running k, goes, is_in_self active i k))
      | inr stuck ↦ ground (arith, goes, there, stuck)
    ]
  ]
]

-- A bot of the list that is not running and cannot be set up ends the loop.
start_each-fails :
    (starts : ℕ → Bool) (l running : List ℕ) (i : ℕ)
    → is_in l i ≡ true
    → is_in running i ≡ false
    → starts i ≡ false
    → (start_each starts l running).0 ≡ err runtime_error
unfolding start_each start_bot on_return is_in
start_each-fails starts [] running i h absent down = cc
start_each-fails starts (j ∷ rest) running i h absent down = elim (Bool-cases (is_in running j)) [
  | inl there ↦ rw there (
      start_each-fails starts rest running i
        (ground (arith, h, there, absent, is_in_self running j i)) absent down)
  | inr missing ↦ elim (Bool-cases (starts j)) [
    | inr stuck ↦ rw (missing, stuck) refl
    | inl up ↦
        rw (missing, up)
          (start_each-fails starts rest (running ++ j ∷ []) i (ground (arith, h, other j up))
            (ground (arith, running-append running (j ∷ []) i, absent, other j up)) down)
  ]
]
  where
    other : (j : ℕ) → starts j ≡ true → j == i ≡ false
    other j up = elim (Bool-cases (j == i)) [
      | inl same ↦ ground (arith, ap starts ((==_iff j i).0 same), up, down)
      | inr differ ↦ differ
    ]

on_return-ok :
    (r : Result Unit × List ℕ) (f : List ℕ → Result Unit × List ℕ)
    → (on_return r f).0 ≡ ok tt
    → (r.0 ≡ ok tt) × (on_return r f ≡ f r.1)
unfolding on_return
on_return-ok (ok tt, now) f h = (refl, refl)
on_return-ok (err e, now) f h = cc

-- Whether the reseller `k` is there and active.
unfoldable pub is_active : Db → ℕ → Bool
is_active s k = elim (find s.resellers k) [ none ↦ false | some r ↦ is_active_status r.status ]

-- If the resellers stand in the order of their keys, then after a call of sync_once that returns, the
-- bots that run are exactly those of the active resellers, whichever ran before.
pub sync_once-Synced :
    (starts closes : ℕ → Bool) (s : Db) (running : List ℕ)
    → IsKeyed s.resellers
    → (sync_once starts closes s running).0 ≡ ok tt
    → (k : ℕ) → is_in (sync_once starts closes s running).1 k ≡ is_active s k
unfolding sync_once is_active active_ids
sync_once-Synced starts closes s running keyed h k =
    let a = active_ids s in
    let begun = start_each starts a running in
    let parts = on_return-ok begun (λ now. stop_each closes a now now) h in
    rw parts.1 (
      ground (
        arith,
        stop_each-ok closes a begun.1 begun.1 k (subst (λ r. r.0 ≡ ok tt) parts.1 h),
        start_each-ok starts a running k parts.0,
        is_in-select (λ _ r. is_active_status r.status) s.resellers k keyed,
      ))

-- If an active reseller's bot does not run and cannot be set up, then sync_once raises and stops no
-- bot: those of suspended resellers go on.
pub sync_once_blocked :
    (starts closes : ℕ → Bool) (s : Db) (running : List ℕ) (i : ℕ)
    → IsKeyed s.resellers
    → is_active s i ≡ true
    → is_in running i ≡ false
    → starts i ≡ false
    → ((sync_once starts closes s running).0 ≡ err runtime_error)
      × ((k : ℕ) → is_in running k ≡ true → is_in (sync_once starts closes s running).1 k ≡ true)
unfolding sync_once active_ids is_active
sync_once_blocked starts closes s running i keyed active absent down =
    stopped (start_each starts (active_ids s) running)
      (start_each-fails starts (active_ids s) running i
        (is_in-select (λ _ r. is_active_status r.status) s.resellers i keyed ∙ active) absent down)
      (start_each-keeps starts (active_ids s) running)
  where
    stopped :
        (r : Result Unit × List ℕ)
        → r.0 ≡ err runtime_error
        → ((k : ℕ) → is_in running k ≡ true → is_in r.1 k ≡ true)
        → ((on_return r (λ now. stop_each closes (active_ids s) now now)).0 ≡ err runtime_error)
          × ((k : ℕ)
              → is_in running k ≡ true
              → is_in (on_return r (λ now. stop_each closes (active_ids s) now now)).1 k ≡ true)
    stopped (ok tt, now) e kept = absurd (ground (arith, e))
    stopped (err e', now) e kept = unfold on_return in (e, kept)
