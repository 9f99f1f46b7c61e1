-- ===== src/Value.antt =====
-- Python's JSON values: what `json.loads` returns and what the program's dictionaries hold. A float
-- is a dyadic number, an infinity or NaN; a dictionary keeps its order of insertion.
mod Types
pub mod Dict
pub mod Number
pub use Types.*
