-- ===== src/Wire/Runs.antt =====
-- Runs of the request header's serializer and parser over the varint runtime.
use rpc_base_on_zookeeper.Base.{◌≡◌, ◌≢◌, refl, [], ◌∷◌, arith, ◌++◌, length, ◌<◌, ◌^◌}
use rpc_base_on_zookeeper.Wire.Varint.{runtime, runtime-laws, read, delimited, cut, write}
use rpc_base_on_zookeeper.Wire.Header.{
  RpcHeader, cleared, merge_from, byte_size_long, parsed, malformed, more, serialize_header,
  parse_header,
}
use rpc_base_on_zookeeper.Wire.Header.Merge.{parse-serialize_twice}
use rpc_base_on_zookeeper.Wire.Header.Sizes.{byte_size_long-serialize}
use rpc_base_on_zookeeper.Wire.Header.RoundTrip.{Fits, parse-serialize, parse_header-ne-more}

abbrev header : RpcHeader
header = record { service_name = b'S' ∷ []; method_name = b'm' ∷ []; args_size = 300 }

header-Fits : Fits header
header-Fits = record { service = omega arith; method = omega arith; size = omega arith }

parse-serialize_example : parse_header runtime (serialize_header runtime header) ≡ parsed header
parse-serialize_example = parse-serialize runtime runtime-laws header header-Fits

-- A field number 1 whose text is cut off.
parse_header-ne-more_example : parse_header runtime (10 ∷ 4 ∷ b'a' ∷ []) ≢ more
parse_header-ne-more_example = parse_header-ne-more runtime runtime-laws (10 ∷ 4 ∷ b'a' ∷ [])

cut_off : parse_header runtime (10 ∷ 4 ∷ b'a' ∷ []) ≡ malformed
unfolding parse_header runtime read delimited cut
cut_off = refl

abbrev short_header : RpcHeader
short_header = record { service_name = []; method_name = b'n' ∷ []; args_size = 0 }

short_header-Fits : Fits short_header
short_header-Fits = record { service = omega arith; method = omega arith; size = omega arith }

parse-serialize_twice_example :
    parse_header runtime (serialize_header runtime header ++ serialize_header runtime short_header)
    ≡ parsed (merge_from short_header (merge_from header cleared))
parse-serialize_twice_example =
    parse-serialize_twice runtime runtime-laws header short_header header-Fits short_header-Fits

header_short : length (serialize_header runtime header) < 2 ^ 64
unfolding serialize_header runtime write
header_short = omega arith

byte_size_long-serialize_example :
    byte_size_long runtime header ≡ length (serialize_header runtime header)
byte_size_long-serialize_example =
    byte_size_long-serialize runtime runtime-laws header header-Fits header_short
