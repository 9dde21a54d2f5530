-- ===== src/Storage.antt =====
-- backend/app/storage/memory.py behind the contracts of backend/app/storage/base.py. A backend may
-- be down (`fail`); then each operation raises `StorageError` and changes nothing.
pub mod Events
pub mod Keyed
pub mod Clickhouse
