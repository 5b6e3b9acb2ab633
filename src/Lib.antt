-- ===== src/Lib.antt =====
-- forRealBank: the rules of the bank's back end, as the packages domain, application and
-- infrastructure/typeorm and the services of apps/api-nest state them.
--
-- The program. A user has roles (client, advisor, director, admin). A user logs in, and is locked out
-- after repeated failures; resets the password and verifies the address with tokens that are used
-- once. A validated client is given accounts, a card and an advisor. Money moves between accounts in
-- one transaction, to a client of the bank or to a registered beneficiary. A client trades stocks, funds and
-- crypto-assets against the balance of an investment account. Advisors are reassigned by the staff, which
-- freezes the conversations of the former advisor; advisors ask a director to ban a client. Clients and
-- staff write to each other in conversations, and are notified of what they have not read.
--
-- The files.
--   Prelude: names of the library and shared helpers: Prelude/Tests (Boolean tests), Prelude/Lists
--     (length, filter, find, some), Prelude/Int (integers over the native numbers), Prelude/Text (a
--     JavaScript string as its UTF-16 code units, `trim`).
--   Effect: `Exec S A` is an asynchronous method on the state S: it returns or throws, and keeps what it
--     has written when it throws.
--   User: packages/domain/src/user (User.ts, RoleName.ts); User/Policy: PasswordPolicy.ts and
--     packages/application/src/users/BanPolicy.ts; User/Token: PasswordResetToken.ts and
--     EmailVerificationToken.ts; User/Ports: the repositories as records of operations with laws.
--   User/Login, User/Recovery, User/Admin: the use cases of packages/application/src/user/usecases.
--     User/Login/Guards, User/Login/BruteForce, User/Login/Forgiven and User/Recovery/SingleUse prove what they promise.
--   Transfer: packages/infrastructure/typeorm/src/repositories/TransferGateway.ts. `execute` is
--     `execute`, `move` the body after the key, and each private method has its name. Transfer/Rows is
--     the table of balances, Transfer/Steps and Transfer/Outcomes how a movement goes and can end, Transfer/Money the sum of all
--     balances, Transfer/Atomic and Transfer/Balances the promises of the gateway.
--   Transfer/Ledger is the abstract ledger that the gateway is meant to keep, and Transfer/Refinement
--     when the rows of the database follow it.
--   InitiateTransfer: packages/application/src/transactions/usecases/InitiateTransferUseCase.ts, which
--     checks a request and calls the gateway.
--   LeastLoaded: packages/application/src/common/pickLeastLoaded.ts, used by Onboarding and by
--     BanRequests.
--   Advisors: AdvisorClientRepository.ts and advisor-reassignment.service.ts (`reassign`).
--   BanRequests: apps/api-nest/src/interface/users-management/ban-requests.service.ts (`decide`,
--     `pickAssignedDirector`).
--   Onboarding: packages/application/src/onboarding/usecases/InitializeClientUseCase.ts on the tables
--     of the account, investment, card and advisor repositories.
--   Chat: CanUseConversationUseCase.ts and CreateGroupConversationUseCase.ts of
--     packages/application/src/chat/usecases; Chat/Contacts: the rule of ListContactableUsersUseCase.ts;
--     Chat/Private: OpenPrivateConversationUseCase.ts.
--   Trading: the placing of an order and the choice of the assets on offer in
--     apps/api-nest/src/interface/trading/trading.controller.ts. Trading/Tables is the rows that it reads and
--     writes, Trading/Positions the purchase, the sale and the valuation with trading-order.policy.ts,
--     Trading/Market the quotes and their cache (market-quotes.ts). Trading/Numbers,
--     Trading/Settlement, Trading/Solvent, Trading/Writes and Trading/Filled prove what an order does,
--     Trading/Cached, Trading/Quotes and Trading/Kept what the quotes are.
--   Notifications: packages/infrastructure/typeorm/src/repositories/NotificationRepository.ts;
--     Notifications/Marks proves what it marks.
--   Messages: SendMessageUseCase.ts of packages/application/src/chat/usecases on the tables of
--     messages, notifications and settings; Messages/Sent, Messages/Badges and Messages/Delivery
--     prove whom a message reaches.
--   Beneficiaries: apps/api-nest/src/interface/beneficiaries (iban.ts is Beneficiaries/Iban,
--     with findByIban of AccountRepository.ts). Beneficiaries/Issued is about the IBANs that the bank
--     issues; Beneficiaries/Rows, Beneficiaries/Clean and Beneficiaries/Scope prove what the table keeps.
--   Examples: the theorems at concrete inputs, with implementations of every port.
--
-- Conventions. An identifier is a natural number; a date is its milliseconds; one call reads the
-- clock once. An empty optional text or identifier counts as none, as the code's tests for truth
-- do. Money is in cents (the columns are decimal(15, 2), and a balance that does not fit makes the
-- statement fail); the numbers of a transfer request are JavaScript numbers, of which only the
-- operations that the code applies are known. An SQL statement is a function on its table, and the
-- rows that it returns have the form that the code's type annotations give. Hashes, token
-- signatures, the second-factor check, the random generator and the repositories of users and
-- tokens are parameters; the market's prices and quotes, and the upper case of a text are
-- parameters too; the transaction of the data source commits a body that returns and undoes a body
-- that throws. The result of an UPDATE query is the pair of its rows and their number, as TypeORM
-- 0.3 gives it. A statement fails only where the model says so: lost connections and the like are
-- left out. The numbers of an order are JavaScript numbers, an interface `Double` whose laws are
-- named where a theorem needs them. The identifiers of new messages come from a supply. The
-- creation of a beneficiary reads the table at one moment and writes it at a later one, and takes
-- the table of each.
--
-- Bounds. Every loop of the code is over a list and is structural recursion, but for the attempts
-- at a new IBAN, which are counted down from the three of the code. No fuel is used.
--
-- Not modelled: the mail server's failures, best-effort notices after a reassignment or a decision,
-- presence, and of the sockets all but the users they belong to, the lists of conversations and of
-- messages, the creation of a ban request, the registration of users, the histories and listings of
-- the market, news, the controllers of cards and accounts, analytics, the schema bootstraps, the
-- framework's guards, and the web application. Concurrent calls are modelled only through the laws
-- of the transaction, the atomic statements and the moments that a creation of a beneficiary is
-- split into.
pub mod Prelude
pub mod Effect
pub mod User
pub mod Transfer
pub mod InitiateTransfer
pub mod LeastLoaded
pub mod Advisors
pub mod BanRequests
pub mod Onboarding
pub mod Chat
pub mod Trading
pub mod Notifications
pub mod Messages
pub mod Beneficiaries
pub mod Examples
