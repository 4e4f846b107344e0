-- ===== src/Lib.antt =====
-- Coffee shop SaaS platform: the money and the stock of an order.
--
-- The program is a back end of services over one PostgreSQL database, which they reach through the
-- Prisma client. A service method is modelled as an `Action Db A` (Action.antt): it takes the
-- database and gives a result, which is a value or an error, and the database after it. What was
-- written before a throw stays written, unless it was written inside `prisma.$transaction`.
-- `Db` (Schema.antt) is a record of tables, one for each model of backend/prisma/schema.prisma that
-- the modelled services touch, with the event log and the clock; a table (Table.antt) is a list of
-- rows under their primary keys, with Table/Keys, Table/Rows and Table/Single on the keys of a table,
-- on rows after a change, and on owners of one row at most; Store.antt gives the client's calls on
-- single rows.
--
-- The parts, and the files that model them:
--   backend/src/domain/payment: the transition tables of payments, refunds and cashier payments.
--     Domain and its children, one for each table, with paths through them in Domain/Reach.
--   backend/src/services/payment/payment.service.ts: PaymentService. The webhook controller, the
--     polling job and the retry job call it; `run` is any sequence of their calls. It asserts
--     transitions by Domain/PaymentStateMachine. `confirmFromProviderEvent` is
--     `confirm_from_provider_event`, and so on. PaymentService/Follows and /Effects hold proofs.
--   backend/src/services/payment/paymentRateLimit.service.ts: PaymentLimit (`checkLimit`), over the
--     columns that it reads. Its proofs: Windows.
--   backend/src/services/payment/refund.service.ts: RefundService (`processRefund` is
--     `process_refund`). Its proofs: Totals, Funded, Once.
--   backend/src/services/inventory/inventory.service.ts: Inventory/Adjust (`adjustStock`,
--     `checkStock`, `checkBulkAvailability`), with proofs in Inventory/Drift.
--   backend/src/services/inventory/InventoryOrder.service.ts: Inventory/Orders (`reserveForOrder`,
--     `commitForOrder`, `releaseForOrder`, `deductForOrder`). Its proofs: Loop (the loop over
--     reservations), Settle, Effects, Consistent, Reserve, RoundTrip, Once, Runs, Spares.
--   backend/src/services/order/orderStatus.service.ts: OrderService/Status (`transition`), with its
--     proofs in the same file.
--   backend/src/services/order/orderCancellation.service.ts: OrderService/Cancellation
--     (`cancelBeforePayment`, `cancelAfterPayment`, `cancelExpiredOrders`), which releases stock by
--     Inventory/Orders. Its proofs: OrderService/Stock and
--     OrderService/Expiry.
--   backend/src/services/order/orderPricing.service.ts: Pricing (`resolveItems` is `resolve_items`,
--     in the steps `resolve_loop` of Pricing/Items, `price_up` and `price_from`). Its proofs:
--     Reference (what the menu asks for an order), Outcome, Plain, Spread (the shares of a
--     discount).
--   backend/src/services/order/orderModification.service.ts: OrderModification (`addItem`, which
--     prices the item by Pricing, `removeItem`, `updateItemQuantity`), over the orders and items of
--     `Db`. Its proofs: Effects, Sums, Upwards.
--   backend/src/services/payment/partialPayment.service.ts: PartialPayment (`createPartial`,
--     `getPaymentBreakdown`), over the columns of orders and payments that it reads, with the
--     unique order of a payment as the schema has it. Its proofs: Stuck.
--   backend/src/services/staff/CashDrawer.service.ts: CashDrawer, over its own state `Till`,
--     with its rows in CashDrawer/Rows. `till_run` is any sequence of its calls. Its proofs: Single,
--     Close.
--   backend/src/services/billing/Quota.service.ts and
--     backend/src/middlewares/quotaGuard.middleware.ts: Quota, over its own state `Quotas`. Its
--     proofs: Found, Budget (with the specification of a budget), Interleaved (two requests at
--     once).
--   backend/src/services/menu/MenuDiff.service.ts: MenuDiff (`createDiff`, `calculateDiff`), over
--     snapshots, with what the loops compare in MenuDiff/Changes. Its proofs: Lists (what a loop
--     gathers), Found, Patch, Record.
--   backend/src/services/auth/Token.service.ts and backend/src/services/auth/Session.service.ts:
--     Token (`issueTokenPair`, `rotate`, the revocations) and Token/Sessions, over their own state
--     `Auth`, with the rows in Token/Rows; `auth_run` of Token/Calls is any sequence of their calls.
--     Their proofs: Sound, Guarded and Single (active tokens of a family), Renew (what a rotation
--     comes down to), Reuse, Versions, Signing, Issued.
--   backend/src/services/staff/TimeEntry.service.ts: TimeEntry, over its own state `Clock`,
--     with its rows in TimeEntry/Rows; `clock_run` is any sequence of its calls. Its proofs: Effects
--     (what each call changes), Single, Settled, Pay, Breaks.
--   backend/src/services/staff/ShiftManagement.service.ts: ShiftManagement, over its own state
--     `Roster`, with its rows in ShiftManagement/Rows; `roster_run` is any sequence of its calls but
--     updates of a status. Its proofs: Conflicts, Calls (what each call changes), Disjoint.
--   backend/src/services/order/idempotency.service.ts: Idempotency, over its own state `Responses`.
--     Its proofs: Answers.
--   Tests and its children apply the theorems to concrete databases.
--
-- Amounts and quantities are the integers of Int.antt: the schema's columns are `Int`, and
-- JavaScript computes exactly on whole numbers of that size. Keys, times and the strings that are
-- only compared are natural numbers. Loops go over lists, so no fuel is used.
--
-- Parameters, for code that answers from outside the modelled services: the payment provider's
-- answer to each lookup and to a refund, and which products the product table marks as tracked.
-- Each may be an error where the code can throw there. So are the roundings of floating-point
-- products and shares in prices and taxes, whether a quota is nearly used up, what the menu service
-- answers, who may open a cash drawer, what the library for JSON web tokens signs and verifies,
-- what the runtime's JSON parses and prints, the distance of two places, and the pay of a time
-- worked.
--
-- Where a service gives the Prisma client a value that is none of the schema's enum, or a column or a
-- relation that the schema lacks, the client refuses the call: the model throws there.
--
-- Not modelled: methods that never write anything, since the client refuses one of their calls so
-- (`startPayment`, `requestRefund`, `processProviderRefund`, `LedgerService.record`), logs and metrics, the copied descriptions
-- (`snapshot`, `reason`, names), what the listeners of the event bus do, and, but for the quota
-- guard, interleavings of two requests between the awaits of one method. The platform's other
-- services (sign-in before the tokens, cashier payments, reports, dashboards, tips, webhooks,
-- subscriptions) are not modelled either.
pub mod Action
pub mod CashDrawer
pub mod Domain
pub mod Idempotency
pub mod Int
pub mod Inventory
pub mod MenuDiff
pub mod OrderModification
pub mod OrderService
pub mod PartialPayment
pub mod PaymentLimit
pub mod PaymentService
pub mod Prelude
pub mod Pricing
pub mod Quota
pub mod RefundService
pub mod Schema
pub mod ShiftManagement
pub mod Store
pub mod Table
pub mod Tests
pub mod TimeEntry
pub mod Token
