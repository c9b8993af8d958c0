-- ===== src/Hpack.antt =====
-- HPACK, the header compression of HTTP/2 (src/viriatum/http/hpack.c and hpack.h): what its parts
-- share, the limits, a header field and the errors. Each RAISE_ERROR_M of hpack.c has the same code
-- and a message of its own, so the message is the constructor here.
pub mod Integer
pub mod Huffman
pub mod Strings
pub mod Static
pub mod Table
pub mod Block
use viriatum.Base.{ℕ, List, length, ◌+◌, ◌/◌}

abbrev pub static_size : ℕ
static_size = 61

abbrev pub table_size : ℕ
table_size = 4096

abbrev pub entry_overhead : ℕ
entry_overhead = 32

abbrev pub max_entries : ℕ
max_entries = table_size / entry_overhead

abbrev pub max_header_list_size : ℕ
max_header_list_size = 32768

-- `VIRIATUM_MAX_HEADER_SIZE` and `VIRIATUM_MAX_HEADER_V_SIZE`
abbrev pub max_name_size : ℕ
max_name_size = 1024

abbrev pub max_value_size : ℕ
max_value_size = 4096

abbrev pub max_integer : ℕ
max_integer = 0x0fffffff

abbrev pub huffman_max_bits : ℕ
huffman_max_bits = 30

abbrev pub huffman_eos : ℕ
huffman_eos = 256

-- `struct hpack_header_t`: the two sizes are the lengths of the two strings.
pub record Header : Type 0 where
  pub name : List ℕ
  pub value : List ℕ

pub data HpackError : Type 0 where
  size_above_advertised : HpackError
  zero_index : HpackError
  index_above_table : HpackError
  truncated_integer : HpackError
  overflowing_integer : HpackError
  no_space_integer : HpackError
  invalid_huffman_code : HpackError
  end_of_string_symbol : HpackError
  decoded_string_above_size : HpackError
  padding_above_byte : HpackError
  invalid_padding : HpackError
  no_space_coded_string : HpackError
  truncated_string : HpackError
  string_above_size : HpackError
  no_space_string : HpackError
  size_update_after_field : HpackError
  name_above_size : HpackError
  header_list_above_size : HpackError
  callback_error : ℕ → HpackError
  -- A read of a slot with no entry, which is no error of the source but a fault.
  null_entry : HpackError
