-- ===== src/Common/Text.antt =====
-- Go strings as byte sequences, and the functions of package `strings` that the program calls.
pub mod Prefix
pub mod Split
pub mod Equal
pub mod Space
pub mod Bytes
pub mod Distinct
pub use Equal.{Text, codes, text_eq_iff, text_eq_refl, text_eq_ne}
unfoldable pub use Equal.{text_eq}
pub use Prefix.{
  has_prefix_of_eq, has_prefix-split, has_suffix_of_eq, has_suffix-split, trim_suffix-append,
  trim_suffix-none, drop-eq_of_append, take-eq_of_append,
}
unfoldable pub use Prefix.{has_prefix, has_suffix, trim_prefix, trim_suffix}
pub use Split.{split-ne-nil, index-split, index-least, cons_head}
unfoldable pub use Split.{split, index, contains, contains_byte}
unfoldable pub use Space.{
  is_space, trim_space, trim_byte, trim_right_byte, ascii_lower, contains_blank,
}
pub use Bytes.{one_on, later, index_byte-append}
unfoldable pub use Bytes.{index_byte, last_index_byte}
