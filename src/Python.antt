-- ===== src/Python.antt =====
-- The methods of Python's `str`, and `int(text)`, that the host uses on packets. A text is the
-- list of its code points; the tables are those of Unicode 14.
pub mod Errors
pub mod Words
pub mod Strip
pub mod Utf8
pub mod Floats
pub mod Json
mod Texts
mod Numbers
unfoldable pub use Texts.{
  codes, is_space, rstrip, lstrip, strip, split, starts_with, split_once, split_max, after,
  put_front, find_after,
}
unfoldable pub use Numbers.{digit?, int?}
pub use Texts.{after-put_front}
