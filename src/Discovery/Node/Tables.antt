-- ===== src/Discovery/Node/Tables.antt =====
-- The table that a slave puts into effect.
use axiom_evi_apps.Discovery.Protocol.{Discovery, Node}
