-- ===== src/Codes/Memory/Lawful.antt =====
-- The store in memory is lawful.
use mathlib.Core.Option
use owne_x.Base.Text.{Text}
