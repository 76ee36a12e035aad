-- ===== src/Kernel.antt =====
-- libs/py-common/devblog_common: the shared kernel of the services. `Errors` and `Events` are
-- domain.py and messaging/envelope.py, `Exec` is how a method that mutates and raises is written,
-- `UnitOfWork` is persistence/unit_of_work.py.
pub mod Errors
pub mod Events
pub mod Exec
pub mod Steps
pub mod Redis
pub mod UnitOfWork
pub mod Database
