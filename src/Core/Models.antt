-- ===== src/Core/Models.antt =====
-- packages/core/src/autotrader/core/models.py: the domain models. A float field holds the decimal
-- that its `str` prints, so `Decimal(str(x))` is the field itself; a UUID is its text.
mod Enums
mod Trading
mod Orders
pub use Enums.*
pub use Trading.*
pub use Orders.*
