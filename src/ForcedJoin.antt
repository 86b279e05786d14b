-- ===== src/ForcedJoin.antt =====
-- services/forced_join_service.py: the channels that a customer must have joined before buying. The
-- answer of Telegram's `get_chat_member` is an argument, `none` where the call raises.
pub mod Joined
use baste.Prelude.{
  ℕ, Bool, true, false, not, Option, none, some, List, [], ◌∷◌, ◌==◌, if◌then◌else◌,
}
use baste.Text.{Text}
use baste.Table.{find, insert, select, delete_where}
use baste.Schema.{Db, ForcedChannel, SetBy}
use baste.Exec.{M, integrity_error, pure, fetch, execute, or_raise, ◌>>=◌, ◌>>◌}

-- Telegram's states of a member; a restricted one says by `is_member` whether it is in the channel now.
pub data MemberStatus : Type 0 where
  creator administrator member left kicked : MemberStatus
  restricted : Bool → MemberStatus

-- The foreign key of the new row wants the reseller.
unfoldable pub add_forced_channel : ℕ → Text → SetBy → M Unit
add_forced_channel reseller_id channel_id set_by = do
  or_raise (← fetch (λ s. find s.resellers reseller_id)) integrity_error
  execute (λ s. record s {
    forced_channels =
        insert s.forced_channels
          (record { reseller_id = reseller_id; channel_id = channel_id; set_by = set_by });
  })

unfoldable pub remove_forced_channel : ℕ → M Unit
remove_forced_channel channel_row_id = execute (λ s. record s {
  forced_channels = delete_where (λ k _. k == channel_row_id) s.forced_channels;
})

unfoldable pub forced_channels_of : ℕ → Db → List (ℕ × ForcedChannel)
forced_channels_of reseller_id s = select (λ _ c. c.reseller_id == reseller_id) s.forced_channels

unfoldable pub get_forced_channels : ℕ → M (List (ℕ × ForcedChannel))
get_forced_channels reseller_id = fetch (forced_channels_of reseller_id)

-- Whether the channel is missing: `status in ("left", "kicked")`, or the call raised. The code does not
-- read `is_member`.
unfoldable pub is_missing : Option MemberStatus → Bool
is_missing none = true
is_missing (some MemberStatus.left) = true
is_missing (some MemberStatus.kicked) = true
is_missing (some MemberStatus.creator) = false
is_missing (some MemberStatus.administrator) = false
is_missing (some MemberStatus.member) = false
is_missing (some (MemberStatus.restricted _)) = false

-- The loop over the channels.
unfoldable pub missing_channels :
    (Text → Option MemberStatus) → List (ℕ × ForcedChannel) → List Text
unfolding is_missing
missing_channels get_chat_member [] = []
missing_channels get_chat_member ((_, c) ∷ rest) =
    let more = missing_channels get_chat_member rest in
    if is_missing (get_chat_member c.channel_id) then c.channel_id ∷ more else more

unfoldable pub none_missing : List Text → Bool
none_missing [] = true
none_missing (_ ∷ _) = false

unfoldable pub user_has_joined_all : (Text → Option MemberStatus) → ℕ → M (Bool × List Text)
unfolding none_missing missing_channels
user_has_joined_all get_chat_member reseller_id = do
  channels ← get_forced_channels reseller_id
  let missing = missing_channels get_chat_member channels
  pure (none_missing missing, missing)
