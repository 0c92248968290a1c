-- ===== src/Lib.antt =====
-- Zold (transF) moves euros of a user's Safe smart account to a cash pickup or a bank account
-- over stablecoin rails. This library models the service that does it, services/api/src.
--
-- The parts and where they are modelled:
--   Store             store.ts: the records, the state (`Db`) and every named operation. All
--                     collections share `Db.lookup`, `Db.push` and `Db.update`; what a collection
--                     does of its own is in Store/Transfers, Quotes, Sessions, Shares, Deposits,
--                     Requests and Accounts.
--   Orchestrator      orchestrator.ts. World: what lies outside, and the system's state. Steps: step
--                     names and amounts. Debit: assertQuoteRateBinding, assertDeviceAuthorization,
--                     debitInputFunds, debitSafeFundedSepaFee. Execute: executeTransfer,
--                     executeSepaTransfer, with prepareTransferLiquidity and serializeExecution of
--                     liquidity.ts and the mock pickups of adapters/moneygram.ts. Compensate:
--                     failAndCompensate, compensateTransfer, compensationRate. Settle: settlePickup,
--                     refreshPayout, sweepStrandedTransfers. Caps: safeFundedEurToday,
--                     sweepAnchorPayouts. The other modules are proofs: Keeps (what every handler
--                     keeps, by its single steps), Outcome (what a handler returns), Frame, Burn, Once
--                     and Authorized.
--   Recovery          recovery.ts, recovery-signer.ts; Requests: the recovery routes of server.ts.
--   WebAuthn          webauthn.ts: challenges and the checks of an assertion.
--   Reconcile         reconcile.ts.
--   Deposits          adapters/crypto-deposits.ts, the poller that turns transfers on the chain into
--                     stored deposits. Watch: watchedAddresses. Convert: convertDeposit and what it
--                     calls. Poll: pollCryptoDepositsOnce, sweepPendingCryptoDeposits and the tick.
--                     It shares the store, the venue and the balances with the orchestrator. The other
--                     modules are proofs.
--   Qr                qr.ts. Galois, Stream and Blocks: the codewords. Grid: the fixed patterns and
--                     dataModuleOrder. Penalty: the masks and their penalty. Matrix: payload, format
--                     strips, qrMatrix and qrSvg. Reader is not code of the repository: it is a
--                     reader of finished symbols written from the standard alone, against which the
--                     encoder is proved. The other modules are proofs.
--   Api               server.ts: sessions, the KYC gate, and the routes that quote (with createQuote of
--                     fx.ts), create and authorize a payment. Quotes, Create and Authorize are code, the
--                     other modules are proofs; Later lists the events that may follow a request. The routes join the parts: WebAuthn checks the
--                     approval, the store's claim lets one request through, the orchestrator pays.
--   Sepa              sepa.ts: the remittance line; its redeem message is in Api/Create.
--   Pay               pay.ts: the handles.
--   Receipt           receipt.ts: names, accounts and status on a shared receipt.
--   Prelude, Exec     the shared names, JavaScript's array and string methods, and actions that
--                     change a state and may throw.
--   Tests             small deployments, and the theorems at them.
--
-- How code and model correspond. A handler is an action on `Sys`: the store, the list of what was
-- called outside, the clock and the pickups map. A throw keeps what was written before it. A route
-- passes the store's own transfer object to a handler, so a handler is given the transfer's id, and
-- a write to the object is a write into the store. A call outside (chain, venue, anchor, issuer)
-- answers by a function in `World` of everything called before it, so nothing is assumed of its
-- answers; a call that throws is taken to have moved nothing. A `return f()` inside a `try` that is
-- not awaited leaves the `try`, and so it does here. In one handler the clock stands still.
--
-- Amounts: euros are counted in wei (10^-18 EUR) and USDC in units of 10^-6, so that the source's
-- floating point is read as exact; its roundings to cents and to six decimals are written out.
-- Times are milliseconds since the epoch, which is what the ISO texts of the store denote. Upper and
-- lower case are those of ASCII. How a number is printed is a parameter.
--
-- The addresses of the deployment, which executeTransfer reads before its `try`, are taken to be there.
--
-- Fuel. Most loops run over lists. In qr.ts, padding to a whole byte has 7 rounds, which any number
-- of bits modulo 8 ends within; the columns of dataModuleOrder are counted by the size of the grid,
-- more than the pairs there are; every other loop has the source's own bound as its count.
--
-- One poll of the chain runs with no other handler between its awaits.
--
-- Not modelled: writing the JSON file and reading old ones; the account's KYC dossier, Travel Rule
-- profile, Monerium tokens and privacy bundle; the display rates of a quote; the fields of a single
-- venue, which are one text; the lock by which concurrent refreshes of one payout share a run; the
-- network code of anchors, issuers, venues and the bridge; the other routes of server.ts; the
-- public projection of pay.ts, the hops of receipt.ts, country-policy.ts and rates.ts.
pub mod Prelude
pub mod Deposits
pub mod Exec
pub mod Store
pub mod Orchestrator
pub mod Recovery
pub mod WebAuthn
pub mod Reconcile
pub mod Sepa
pub mod Pay
pub mod Receipt
pub mod Qr
pub mod Api
pub mod Tests
