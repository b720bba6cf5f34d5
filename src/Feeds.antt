-- ===== src/Feeds.antt =====
-- app/feeds/base.py: a mark print. The calls of the interface are those of the feed in Feeds.Mock.
pub mod Mock
use pdfsleuth.Common.{String, Bool}
use pdfsleuth.Models.{Instant}

-- `gap` is set on a value that follows a detected gap.
pub record Mark (D : Type 0) : Type 0 where
  pub symbol : String
  pub price : D
  pub ts : Instant
  pub gap : Bool
