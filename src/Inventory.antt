-- ===== src/Inventory.antt =====
-- Stock. `Adjust` is `InventoryService` of backend/src/services/inventory/inventory.service.ts, and
-- `Orders` is `InventoryOrderService` of backend/src/services/inventory/InventoryOrder.service.ts.
pub mod Adjust
pub mod Orders
pub mod Drift
