-- ===== src/Dispatch/Order.antt =====
-- The two lists of dispatchOrder.
use mathlib.Core.List.{Perm}
use mathlib.Core.List.Perm
use simpool.Common.{List}
use simpool.Text.{Text}
