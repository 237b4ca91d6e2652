-- ===== src/Text.antt =====
-- The functions of Go's packages strings and bytes that the gateway calls, on texts as lists of
-- bytes. Case and white space are those of ASCII: a byte above 127 is left alone.
pub mod Equality
pub mod Case
pub mod Search
pub mod Trim
pub mod Sorting
pub mod Order
pub mod Decimal
pub mod Utf8
use Prim.Native.Char.{code}
use Prim.Native.String.{String}
use mailout_operator.Base.{ℕ, List, [], ◌∷◌}
unfoldable pub use Equality.*
unfoldable pub use Case.*
unfoldable pub use Search.*
unfoldable pub use Trim.*
unfoldable pub use Sorting.*
unfoldable pub use Order.*
unfoldable pub use Decimal.*
unfoldable pub use Utf8.*

-- The bytes of an ASCII literal.
abbrev pub codes : String → List ℕ
codes String.[] = []
codes (String.◌∷◌ c s) = code c ∷ codes s
