-- ===== src/Messaging.antt =====
-- libs/py-common/devblog_common: what carries events between the services.
pub mod Outbox
pub mod Consumer
pub mod Redelivery
pub mod ConsumerLoop
pub mod Relay
pub mod Backoff
pub mod Publisher
pub mod Topology
pub mod Routing
pub mod RelayLoop
pub mod Outage
pub mod Drain
