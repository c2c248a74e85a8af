-- ===== src/Common/Json.antt =====
-- JSON values as boost::json (not under src/) holds them, and texts compared with `==`. A number with
-- a fraction is kept by the bits of its `double`.
use Prim.Native.Nat.{ℕ}
use mathlib.Core.Bool.{Bool}
use mathlib.Core.Option.{Option, none, some}
pub use Prim.Native.String.{String}
pub use text.Mathlib.Text.{◌==◌ as str_eq}
pub use text.Mathlib.TextEquality.{eq_iff}
use aimeath.Common.Tests.{if◌then◌else◌}
use aimeath.Common.Int.{ℤ}

mutual
  pub data Value : Type 0 where
    null : Value
    boolean : Bool → Value
    int64 : ℤ → Value
    uint64 : ℕ → Value
    double : ℕ → Value
    string : String → Value
    array : Items → Value
    object : Members → Value

  pub data Items : Type 0 where
    last : Items
    item : Value → Items → Items

  pub data Members : Type 0 where
    end : Members
    member : String → Value → Members → Members

-- `obj.find(key)`.
abbrev pub find : String → Members → Option Value
find k end = none
find k (member j v ms) = if str_eq j k then some v else find k ms
