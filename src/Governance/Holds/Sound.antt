-- ===== src/Governance/Holds/Sound.antt =====
-- What holds of the governance tables between transactions.
use Prim.Native.String.{String}
use mathlib.Core.List.{List}
use text.Mathlib.Text.{◌==◌ as str_eq}
