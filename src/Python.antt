-- ===== src/Python.antt =====
-- What the source uses of Python: JSON values as `json.loads` gives them, and the conversions to
-- text and numbers. `Builtins` holds the functions that turn on Unicode tables or on the printing of
-- containers; the definitions that use them take them as an argument.
pub mod Json
pub mod Strip
pub mod Date
