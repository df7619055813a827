-- ===== src/Listener/Tests/Orders.antt =====
-- The first load of two headers in either order.
use mathlib.Core.List.Perm
