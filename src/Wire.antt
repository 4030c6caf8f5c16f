-- ===== src/Wire.antt =====
-- The wire format. The protobuf runtime is not part of the repository: its operations are a
-- parameter, with the laws that its documentation states. src/Zrpcheader.pb.cc, which the program
-- keeps with its sources, is modelled over it.
pub mod Header
pub mod Varint
pub mod Frame
mod Runs
use rpc_base_on_zookeeper.Base.{
  Bytes, ℕ, ◌+◌, ◌*◌, ◌^◌, ◌<◌, ◌≤◌, ◌≡◌, Bool, true, false, Option, some, ◌++◌, length,
}

pub record Runtime : Type 0 where
  -- CodedOutputStream::WriteVarint32, and CodedInputStream::ReadVarint32 with its result unread: the
  -- value that is left in the argument, and what is left of the input.
  pub write_varint32 : ℕ → Bytes
  pub read_varint32 : Bytes → ℕ × Bytes
  -- CodedInputStream::ReadString: success, the text, and what is left of the input.
  pub read_string : ℕ → Bytes → Bool × Bytes × Bytes
  -- WriteBytesMaybeAliased and WriteUInt32ToArray, with the field's number first.
  pub write_bytes : ℕ → Bytes → Bytes
  pub write_uint32 : ℕ → ℕ → Bytes
  -- ReadTag, InlineGreedyStringParser, ReadVarint32 of the parse context, and UnknownFieldParse.
  pub read_tag : Bytes → Option (ℕ × Bytes)
  pub parse_string : Bytes → Option (Bytes × Bytes)
  pub parse_varint32 : Bytes → Option (ℕ × Bytes)
  pub skip_field : ℕ → Bytes → Option Bytes
  -- WireFormatLite::BytesSize and UInt32Size, without the tag.
  pub bytes_size : Bytes → ℕ
  pub uint32_size : ℕ → ℕ

-- A message has less than 2 GB.
abbrev pub max_size : ℕ
max_size = 2 ^ 31

pub record RuntimeLaws (r : Runtime) : Type 0 where
  pub read_varint32-write :
      (n : ℕ) (rest : Bytes) → n < 2 ^ 32 → r.read_varint32 (r.write_varint32 n ++ rest) ≡ (n, rest)
  pub read_string-append :
      (s rest : Bytes)
      → length s < max_size
      → r.read_string (length s) (s ++ rest) ≡ (true, s, rest)
  pub read_string_short : (n : ℕ) (s : Bytes) → length s < n → (r.read_string n s).0 ≡ false
  pub parse-write_bytes :
      (field : ℕ) (s rest : Bytes)
      → field < 16
      → length s < max_size
      → (t : Bytes) × (r.read_tag (r.write_bytes field s ++ rest) ≡ some (field * 8 + 2, t))
        × (r.parse_string t ≡ some (s, rest))
  pub parse-write_uint32 :
      (field n : ℕ) (rest : Bytes)
      → field < 16
      → n < 2 ^ 32
      → (t : Bytes) × (r.read_tag (r.write_uint32 field n ++ rest) ≡ some (field * 8, t))
        × (r.parse_varint32 t ≡ some (n, rest))
  -- A read takes nothing but a part of its input off, and a tag has a byte at least.
  pub read_tag_shrinks :
      (s : Bytes) (tag : ℕ) (t : Bytes) → r.read_tag s ≡ some (tag, t) → length t < length s
  pub parse_string_shrinks : (s a t : Bytes) → r.parse_string s ≡ some (a, t) → length t ≤ length s
  pub parse_varint32_shrinks :
      (s : Bytes) (n : ℕ) (t : Bytes) → r.parse_varint32 s ≡ some (n, t) → length t ≤ length s
  pub skip_field_shrinks :
      (tag : ℕ) (s t : Bytes) → r.skip_field tag s ≡ some t → length t ≤ length s
  -- The sizes are those of what is written, less the byte of the tag.
  pub length-write_bytes :
      (field : ℕ) (s : Bytes)
      → field < 16
      → length s < max_size
      → length (r.write_bytes field s) ≡ 1 + r.bytes_size s
  pub length-write_uint32 :
      (field n : ℕ)
      → field < 16
      → n < 2 ^ 32
      → length (r.write_uint32 field n) ≡ 1 + r.uint32_size n
