-- ===== src/Discovery.antt =====
-- The discovery and routing phases of axiom-init (axiom-init/axiom-discovery).
pub mod Routing
pub mod Delivery
pub mod Activation
pub mod Protocol
pub mod Node
