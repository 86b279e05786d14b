-- ===== src/Lib.antt =====
-- Baste: a library of shared shop bots. A reseller's bot sells packages and charge codes to its
-- customers; the platform takes a commission out of the reseller's prepaid wallet.
--
-- The parts and how they interact. The services are async functions over one MySQL database; the
-- handlers call them and show what they return or raise. A service call is here a function of the
-- database (Exec.M): it gives a value or an exception, and the database afterwards. Statements sent by
-- `fetch_one`, `fetch_all` and `execute` commit one by one; a block under `transaction()` is undone if
-- it raises. The order service and the customers' wallets deduct commissions through the reseller's
-- wallet inside their own transaction and catch its refusal there; orders and charge purchases ask the
-- blacklist first; the disputes refund through the wallet and feed the blacklist.
--
--   Prelude, Prelude/*          shared names, integers over the native numbers, lists
--   Text, Text/*                str: equality; splitlines and strip of services/charge_service.py;
--                               str and int of numbers
--   Table, Table/*              a table with its AUTO_INCREMENT key, the SQL statements, their laws
--   Schema                      the rows of database/schema.sql and database/schema_phase4.sql
--   Exec, Exec/Keeps            database/db.py: exceptions, statements, transaction
--   Money                       DECIMAL(14,2) columns
--   Wallet, Wallet/*            services/wallet_service.py: deduct_commission(_in_tx),
--                               refund_commission, request_topup, confirm_topup
--   OrderCode, OrderCode/*      _generate_order_code of the order and the charge service
--   Blacklist, Blacklist/*      services/blacklist_service.py
--   Orders, Orders/*            services/order_service.py: submit_receipt is check_receipt, which
--                               stands before its transaction, and then accept_receipt
--   Charge, Charge/*            services/charge_service.py
--   CustomerWallet, .../*       services/customer_wallet_service.py
--   Disputes, Disputes/*        services/dispute_service.py
--   Discounts, Discounts/*      services/discount_service.py
--   Referral, Referral/*        services/referral_service.py
--   Cards, Cards/*              services/payment_methods_service.py
--   Permissions, Permissions/*  core/permissions_middleware.py and is_active_operator of
--                               handlers/operator/orders.py
--   Operator                    the command of handlers/operator/orders.py
--   ForcedJoin, ForcedJoin/*    services/forced_join_service.py
--   SanityCheck                 services/sanity_check.py
--   Migrator, Migrator/*        database/migrator.py
--   Backup, Backup/*            services/backup_service.py: create_backup_dict, restore_from_dict
--   Reports, Reports/*          services/report_service.py: the two summaries
--   Keyboards, Keyboards/*      utils/keyboards.py
--   Chat, Chat/*                a conversation: the states of utils/states.py, the dict of its data,
--                               the texts that are sent, and the invariants of a session
--   Notifications               services/notifications.py
--   Customer, Customer/*        handlers/customer: orders.py (Customer, Browse, Purchase, Receipt),
--                               charge.py (ChargeShop), wallet.py (Topup) and the filters of the
--                               routers (Dispatch); Services to Bot are proofs about them
--   Reseller, Reseller/*        handlers/reseller/orders.py: OrderReview its handlers, Callbacks the
--                               middleware, the filters and the id in a button's data;
--                               handlers/reseller/charge_stock.py: ChargeStock, ChargeStock/*;
--                               handlers/reseller/payment_methods.py: PaymentMethods;
--                               handlers/reseller/catalog.py: Catalog and Products make operators,
--                               folders and packages, Manage, Edits, Removal and Deletion show, change
--                               and delete them, Filters chooses the handler of a button or a message;
--                               Catalog/Linked and Catalog/Trees are proofs about them
--   BotManager, BotManager/*    core/bot_manager.py: which bots run
--   Tests, Tests/*              a small database and the theorems at it
--
-- A definition has the name of the function that it models; a piece of a function has a name of its
-- own, for example `take_receipt` for the transaction of `submit_receipt`. A query or an UPDATE is a
-- function of the tables in Schema.Db, with the keys that MySQL would enforce where a row is inserted.
-- What a call reads from the clocks, from `random` and from the configuration is an argument, and so
-- are the texts that it renders, `strip().upper()` of a discount code, and the rounding of a
-- DECIMAL(14,2) column (Money.DecimalColumn: two decimals are kept, and order is). The migrator takes
-- the database that runs a statement, and what its rollback leaves, as functions.
--
-- A handler is a function of a session (Chat.Session): the database, the state and the data of one
-- conversation, and what was sent. An exception ends it and keeps what was done before; the code behind
-- a `try` gets the exception as a value (Chat.attempt). A text for Telegram is a constructor with the
-- values that it shows (Chat.Replies), except those of the buttons, which the filters read. What a
-- handler reads besides (Chat.World) is an argument: clocks, `random`, Telegram's answers, the
-- configuration, `isdigit` and the values of digits, `int` of a referral code, `Decimal` of a typed
-- amount, and the format of a price. A message that cannot be sent is ignored where the code ignores
-- it, and is not modelled elsewhere. The customer's routers see the messages that those of the
-- reseller and the operator leave: the others are not modelled.
--
-- Numbers. Amounts are integers of hundredths, percents hundredths of a percent, a commission before it
-- is stored millionths; all are unbounded, as Decimal is here in practice, and the range of the columns
-- is not modelled. Times are seconds. The only fuel is that of `decimal` in Text.Decimal, which prints a
-- sequence number above 999: n + 1 rounds are enough, since each divides by ten.
--
-- The bot manager takes two functions: whether a reseller's bot can be set up, and whether its session
-- can be closed. The dicts that handlers/reseller/catalog.py keeps in the process, behind tokens of
-- `uuid4`, are part of the session. A bot runs, for the bot manager, as long as it is in `_running`, even
-- where its polling has ended.
--
-- Not modelled. Interleavings, but for the two halves of the customer's confirm_topup and of
-- submit_receipt, which are apart: elsewhere a call or a message runs to its end before the next. Row
-- locks, lost connections and deadlocks. A query that only displays (list_blacklist). The JSON of a
-- backup, spreadsheets, the calls of Zarinpal, building and polling the bots, and encryption, which are
-- I/O; services/crypto_service.py, which stores the settings of coins and asks the wallet service for a
-- top-up. The reseller's start page, wallet, settings, statistics and reports (start.py, wallet.py,
-- settings.py, stats.py and reports.py of handlers/reseller), the handlers of the administrator
-- (handlers/admin) and the two services for statistics and logs: they call services that are modelled,
-- write single rows, or show queries.
pub mod Prelude
pub mod Text
pub mod Table
pub mod Schema
pub mod Exec
pub mod Money
pub mod Keyboards
pub mod Wallet
pub mod OrderCode
pub mod Blacklist
pub mod Orders
pub mod Charge
pub mod CustomerWallet
pub mod Disputes
pub mod Discounts
pub mod Permissions
pub mod Referral
pub mod Cards
pub mod ForcedJoin
pub mod SanityCheck
pub mod Chat
pub mod Notifications
pub mod Customer
pub mod Reseller
pub mod Operator
pub mod Migrator
pub mod Backup
pub mod Reports
pub mod BotManager
mod Tests
