-- ===== src/Lib.antt =====
-- TicketFlow Kenya sells event tickets. This library models parts of its backend (backend/src) and
-- proves what makes them correct.
--
-- The tax module (backend/src/tax). A paid order is first priced by a pure calculation and then posted to
-- a double-entry ledger inside one database transaction.
-- - Tax/Money: domain/money/money.ts. A bigint is an integer ℤ, a Money its currency and minor units.
--   `divideBigIntWithRounding`, `percentageOfMinor`, `extractVatFromInclusive` and `addVatToExclusive`
--   return a result or a thrown error. There are no machine-width integers, so nothing overflows.
-- - Tax/Types, Tax/Fees, Tax/Sale: domain/calculation/ticket-sale-tax.types.ts and
--   calculate-ticket-sale-tax.logic.ts. Tax/Sale/Lines is the loop over the ticket lines with the
--   variables it changes as a record, Tax/Sale/Calculate the rest of `calculateTicketSaleTax` in the
--   source's order. `stableHash` and the id generator are arguments. The theorems are in Tax/Sale/Closed
--   (the loop without its errors), Cash, Components, Principal and Nonneg.
-- - Tax/Ledger: domain/ledger and infrastructure/repositories/ledger.repository.ts. The journal is the
--   list of its entries; a posting is a function from a journal to a value with a new journal, or an
--   error, which rolls the transaction back. Tax/Ledger/TicketSale is
--   application/post-ticket-sale-ledger-entries.service.ts; SaleEntries, SalePosting and SaleAgreement
--   relate the entries it posts to the calculation.
-- - Tax/Refund: domain/refund/refund-tax.types.ts and calculate-refund-tax.logic.ts. Calculate is
--   `calculateRefundTax` step by step, Fees what it reverses of the fees.
-- - Tax/Rules: domain/tax-rule/tax-rule.types.ts and infrastructure/repositories/tax-rule.repository.ts.
--   The table is the list of its rows, dates are numbers, and the check's far end is an argument.
-- - Tax/Liability: domain/liability/tax-liability.types.ts and
--   infrastructure/repositories/tax-liability.service.ts, with the check of two different actors of
--   domain/permissions/tax-permission.types.ts. The table of liabilities and the audit log are lists.
--   Calls has the calls in sequence, among them the calls of `transitionTo` in
--   infrastructure/repositories/tax-prn.service.ts and application/tax-remittance.service.ts.
--
-- The orders (backend/src/orders/orders.service.ts) in Orders and its children: the tables as a record,
-- the ticket types as a function of the id, the orders as a list. Orders/Service holds the operations, a
-- transaction that throws leaves the tables unchanged. Stock, Reserve and Consistent hold the lemmas on
-- the counters and on what orders hold, Operations what each operation does, Trace the calls in sequence,
-- Final, PaidOrders and Totals what the calls do to paid orders and to amounts, Payable when `markPaid`
-- returns, Capacity and Sellable the limits. A payment that arrives after its order was failed is owed
-- its tickets and may oversell: a late payment.
--
-- The payments (backend/src/payments/payments.service.ts and payment-reconciliation.service.ts) in
-- Payments: the tables hold the orders' tables, the payments, the tickets, the commissions and the
-- notices, which are the calls of the audit log, the alerts and the job queue in their order. A handler
-- is a call that reads and writes the tables and may throw (Base/Action), and what was written before a
-- throw stays written. Settle holds `markPaymentSuccess`, `markPaymentUnsuccessful` and `applyOutcome`,
-- Reconcile `reconcile`, Callback `handleMpesaCallback` in its stages, Initiate `performInitiation`,
-- `mockMarkSuccess` and the sweep, Reads the reads and the status view, Trace the calls in sequence. The
-- answers of Daraja are arguments of a call, any answer at each call. Handlers carries a relation between
-- tables over all handlers from the single changes; Moves uses it for the rows of the payments, Shop for
-- the orders and the tickets; Status, Live, Single, Retire, Settled, Paid,
-- Evidence, Issued, Fulfilled, Bought and Priced hold what follows.
-- Durations are compared in milliseconds. A call reads the clock once and is not interleaved with another.
-- - Mpesa: `classifyResultCode`, the metadata of a callback, the status query (Query) and the requests with
--   their retries, token and re-authentication (Client; Retries and Push hold what follows),
--   of backend/src/mpesa/mpesa.service.ts.
-- - Tickets: `generateForOrder` of backend/src/tickets/tickets.service.ts. A ticket is its order, type
--   and owner.
--
-- The check-ins (backend/src/checkins/checkins.service.ts, with `verifyQrSignature` of
-- backend/src/tickets/tickets.service.ts) in Checkins: `performCheckIn` is split into what it decides on
-- the tables it reads (`decide`) and what it writes later (`finish`), so that calls of several gates can
-- interleave. Admission is about the decision, Once about the writes.
--
-- All loops run over lists or a number of attempts and are structural recursion, so no fuel is used. Base holds the shared
-- types: integers over the native numbers, lists, sums and results.
--
-- Not modelled: controllers, DTO validation, serializers, database schema, mail, the calls of external
-- services, and the frontend. A text that the code builds for people (a warning, a formula) is the data
-- it interpolates. Identifiers are natural numbers, as they are only compared.
pub mod Base
pub mod Tax
pub mod Orders
pub mod Checkins
pub mod Mpesa
pub mod Tickets
pub mod Payments
