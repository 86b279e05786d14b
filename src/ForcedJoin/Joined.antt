-- ===== src/ForcedJoin/Joined.antt =====
-- services/forced_join_service.py, user_has_joined_all.
use baste.Prelude.{
  ℕ, ◌≡◌, ◌⊎◌, inl, inr, ◌↔◌, refl, Bool, true, false, Option, none, some, List, [], ◌∷◌, All,
  All-map, arith, ◌==◌,
}
use baste.Text.{Text}
use baste.Table.{find, select}
use baste.Table.Keys.{IsKeyed, select-find}
use baste.Table.Queries.{All-select}
use baste.Schema.{Db, ForcedChannel}
use baste.Exec.{ok}
use baste.ForcedJoin.{
  MemberStatus, user_has_joined_all, missing_channels, none_missing, is_missing, forced_channels_of,
  get_forced_channels,
}

-- The answers of Telegram for which a user counts as in a channel: a restricted user counts whether
-- in it or not.
pub data CountsAsIn : Option MemberStatus → Type 0 where
  creator : CountsAsIn (some MemberStatus.creator)
  administrator : CountsAsIn (some MemberStatus.administrator)
  member : CountsAsIn (some MemberStatus.member)
  restricted : (is_member : Bool) → CountsAsIn (some (MemberStatus.restricted is_member))

-- Those for which it does not: the membership could not be read, or the user left or was removed.
pub data CountsAsOut : Option MemberStatus → Type 0 where
  unreadable : CountsAsOut none
  left : CountsAsOut (some MemberStatus.left)
  kicked : CountsAsOut (some MemberStatus.kicked)

module _ (get_chat_member : Text → Option MemberStatus) where
  -- The ids of the channels, in their order, for which the user counts as out.
  pub data Absent : List (ℕ × ForcedChannel) → List Text → Type 0 where
    done : Absent [] []
    is_in :
        {i : ℕ} {c : ForcedChannel} {l : List (ℕ × ForcedChannel)} {out : List Text}
        → CountsAsIn (get_chat_member c.channel_id)
        → Absent l out
        → Absent ((i, c) ∷ l) out
    is_out :
        {i : ℕ} {c : ForcedChannel} {l : List (ℕ × ForcedChannel)} {out : List Text}
        → CountsAsOut (get_chat_member c.channel_id)
        → Absent l out
        → Absent ((i, c) ∷ l) (c.channel_id ∷ out)

  answer-cases :
      (a : Option MemberStatus)
      → (CountsAsIn a × (is_missing a ≡ false)) ⊎ (CountsAsOut a × (is_missing a ≡ true))
  unfolding is_missing
  answer-cases none = inr (unreadable, refl)
  answer-cases (some MemberStatus.left) = inr (left, refl)
  answer-cases (some MemberStatus.kicked) = inr (kicked, refl)
  answer-cases (some MemberStatus.creator) = inl (creator, refl)
  answer-cases (some MemberStatus.administrator) = inl (administrator, refl)
  answer-cases (some MemberStatus.member) = inl (member, refl)
  answer-cases (some (MemberStatus.restricted b)) = inl (restricted b, refl)

  -- The loop lists the absent ones.
  missing_channels-Absent :
      (l : List (ℕ × ForcedChannel)) → Absent l (missing_channels get_chat_member l)
  unfolding missing_channels
  missing_channels-Absent [] = done
  missing_channels-Absent ((i, c) ∷ l) = elim (answer-cases (get_chat_member c.channel_id)) [
    | inl (inside, e) ↦ rw e (is_in inside (missing_channels-Absent l))
    | inr (outside, e) ↦ rw e (is_out outside (missing_channels-Absent l))
  ]

  not_missing : {a : Option MemberStatus} → CountsAsIn a → is_missing a ≡ false
  unfolding is_missing
  not_missing creator = refl
  not_missing administrator = refl
  not_missing member = refl
  not_missing (restricted is_member) = refl

  abbrev InChannel : ℕ × ForcedChannel → Type 0
  InChannel r = CountsAsIn (get_chat_member r.1.channel_id)

  none_missing-All :
      (l : List (ℕ × ForcedChannel))
      → none_missing (missing_channels get_chat_member l) ≡ true
      → All InChannel l
  unfolding missing_channels none_missing
  none_missing-All [] h = tt
  none_missing-All ((i, c) ∷ l) h = elim (answer-cases (get_chat_member c.channel_id)) [
    | inl (inside, e) ↦ (inside, none_missing-All l (rw e at h))
    | inr (outside, e) ↦ ground arith
  ]

  All-none_missing :
      (l : List (ℕ × ForcedChannel))
      → All InChannel l
      → none_missing (missing_channels get_chat_member l) ≡ true
  unfolding missing_channels none_missing
  All-none_missing [] h = refl
  All-none_missing ((i, c) ∷ l) h = rw (not_missing h.0) (All-none_missing l h.1)

  -- Every channel that the reseller demands counts the user as in it.
  abbrev pub InAll : ℕ → Db → Type 0
  InAll k s =
      (j : ℕ) (c : ForcedChannel)
      → find s.forced_channels j ≡ some c
      → c.reseller_id ≡ k
      → CountsAsIn (get_chat_member c.channel_id)

  All-InAll : (k : ℕ) (s : Db) → All InChannel (forced_channels_of k s) → InAll k s
  unfolding forced_channels_of
  All-InAll k s h j c e own =
      All-select InChannel (λ _ c. c.reseller_id == k) s.forced_channels j c h e
        (ground (arith, own))

  InAll-All :
      (k : ℕ) (s : Db)
      → IsKeyed s.forced_channels
      → InAll k s
      → All InChannel (forced_channels_of k s)
  unfolding forced_channels_of
  InAll-All k s keyed h =
      All-map _ InChannel (λ r q. h r.0 r.1 q.0 (ground (arith, q.1)))
        (select (λ _ c. c.reseller_id == k) s.forced_channels)
        (select-find (λ _ c. c.reseller_id == k) s.forced_channels keyed)

  -- The check changes nothing. It reports exactly those of the reseller's channels, in their order,
  -- that the user has left, was removed from, or whose membership could not be read; and it lets the
  -- user pass exactly when each channel of the reseller counts the user as in it, as its creator, an
  -- administrator, a member, or restricted.
  pub user_has_joined_all_lem :
      (k : ℕ) (s : Db)
      → IsKeyed s.forced_channels
      → (passes : Bool) × (out : List Text) × (user_has_joined_all get_chat_member k s
          ≡ (ok (passes, out), s))
        × Absent (forced_channels_of k s) out
        × ((passes ≡ true) ↔ InAll k s)
  unfolding user_has_joined_all get_forced_channels
  user_has_joined_all_lem k s keyed =
      let channels = forced_channels_of k s in
      (
        none_missing (missing_channels get_chat_member channels),
        missing_channels get_chat_member channels,
        refl,
        missing_channels-Absent channels,
        (
          λ h. All-InAll k s (none_missing-All channels h),
          λ h. All-none_missing channels (InAll-All k s keyed h),
        ),
      )
