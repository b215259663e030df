-- ===== src/CollectionService.antt =====
-- The app's collections: `CollectionStatusManager` of
-- app/core/services/collection/collection_status.py and `CollectionService` of
-- app/core/services/collection_service.py.
pub mod Status
pub mod Trigger
mod Tests
