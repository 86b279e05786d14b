-- ===== src/Customer/Bot.antt =====
-- All customers of one reseller's bot: one database and a conversation for each customer, whose
-- messages come in any order, each handled to its end before the next.
use baste.Prelude.{ℕ, suc, ◌≡◌, subst, true, Option, List, [], ◌∷◌, arith, ◌==◌, if◌then◌else◌}
use baste.Schema.{Db}
use baste.Chat.{World, Message, Session, ChatState, ChatData, Sent}
use baste.Chat.Keeps.{Fine, ready}
use baste.Orders.Pending.{Capped}
use baste.Customer.Dispatch.{customer_message}
use baste.Customer.Services.{Services}
use baste.Customer.Sound.Messages.{customer_message-Fine}
use baste.Customer.Solvent.{Solvent}
use baste.Customer.Solvent.All.{services-Solvent}
use baste.Customer.Pending.{services-Capped}

pub record Bot : Type 0 where
  pub db : Db
  pub chats : ℕ → Option ChatState × ChatData
  pub sent : List Sent

-- The customers' handlers do not read the prices that wait.
unfoldable pub session_of : Bot → ℕ → Session
session_of b user = record {
  db = b.db;
  pending_prices = [];
  pending_edits = [];
  state = (b.chats user).0;
  data_ = (b.chats user).1;
  sent = b.sent;
}

unfoldable pub chats_with :
    ℕ → Session → (ℕ → Option ChatState × ChatData) → ℕ → Option ChatState × ChatData
chats_with user s chats other = if user == other then (s.state, s.data_) else chats other

unfoldable pub resume : ℕ → Session → Bot → Bot
unfolding chats_with
resume user s b = record { db = s.db; chats = chats_with user s b.chats; sent = s.sent }

-- One message: the handler runs on the conversation of its sender.
unfoldable pub handle : World → ℕ → Message → Bot → Bot
unfolding resume session_of customer_message
handle w reseller_id m b =
    resume m.user (customer_message w reseller_id m (session_of b m.user)).1 b

-- `world n` is what the n-th message reads besides the database.
unfoldable pub serve_messages : (ℕ → World) → ℕ → ℕ → List Message → Bot → Bot
unfolding handle
serve_messages world reseller_id n [] b = b
serve_messages world reseller_id n (m ∷ rest) b =
    serve_messages world reseller_id (suc n) rest (handle (world n) reseller_id m b)

-- The database satisfies `P`, and each conversation has the data of its state.
pub record Sound (P : Db → Type 0) (b : Bot) : Type 0 where
  pub db_ok : P b.db
  pub chats_ready : (user : ℕ) → ready (b.chats user).0 (b.chats user).1 ≡ true

module _ {P : Db → Type 0} where
  resume-Sound :
      (user : ℕ) (s : Session) (b : Bot) → Fine P s → Sound P b → Sound P (resume user s b)
  unfolding resume chats_with
  resume-Sound user s b h p = record {
    db_ok = h.db_ok;
    chats_ready = λ other. ground (arith, h.is_ready, p.chats_ready other);
  }

  handle-Sound :
      (w : World)
      → Services w P
      → (k : ℕ) (m : Message) (b : Bot) → Sound P b
      → Sound P (handle w k m b)
  unfolding handle
  handle-Sound w services k m b p = resume-Sound m.user _ b kept p
    where
      kept : Fine P (customer_message w k m (session_of b m.user)).1
      kept =
          customer_message-Fine services m k (session_of b m.user)
            (unfold session_of in record { db_ok = p.db_ok; is_ready = p.chats_ready m.user })

  serve_messages-Sound :
      (world : ℕ → World)
      → ((n : ℕ) → Services (world n) P)
      → (k n : ℕ) (messages : List Message) (b : Bot) → Sound P b
      → Sound P (serve_messages world k n messages b)
  unfolding serve_messages
  serve_messages-Sound world services k n [] b p = p
  serve_messages-Sound world services k n (m ∷ rest) b p =
      serve_messages-Sound world services k (suc n) rest _
        (handle-Sound (world n) (services n) k m b p)

-- From a bot where no customer's wallet is below zero and each conversation has the data that the
-- handlers of its state read, no sequence of messages of its customers, each handled to its end
-- before the next, leads to one where a wallet is below zero or a conversation lacks such data.
pub serve_messages-Solvent :
    (world : ℕ → World) (reseller_id n : ℕ) (messages : List Message) (b : Bot)
    → Sound Solvent b
    → Sound Solvent (serve_messages world reseller_id n messages b)
serve_messages-Solvent world reseller_id n messages b =
    serve_messages-Sound world (λ i. services-Solvent (world i)) reseller_id n messages b

-- From a bot where no customer has more orders under review than the configured maximum, no
-- sequence of messages of its customers, each handled to its end before the next, leads to one where
-- some customer has more. Each conversation has the data of its state, before as after.
pub serve_messages-Capped :
    (limit : ℕ) (world : ℕ → World) (reseller_id n : ℕ) (messages : List Message) (b : Bot)
    → ((i : ℕ) → (world i).max_pending ≡ limit)
    → Sound (Capped limit) b
    → Sound (Capped limit) (serve_messages world reseller_id n messages b)
serve_messages-Capped limit world reseller_id n messages b configured =
    serve_messages-Sound world
      (λ i. subst (λ l. Services (world i) (Capped l)) (configured i) (services-Capped (world i)))
      reseller_id n messages b
