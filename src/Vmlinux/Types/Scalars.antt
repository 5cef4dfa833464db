-- ===== src/Vmlinux/Types/Scalars.antt =====
-- The scalar types that vmlinux.rs takes from C and from Rust, on a 64-bit target.
use ebpf_ldms.Vmlinux.Repr.{CType, scalar, array}

abbrev pub bool : CType
bool = scalar 1

abbrev pub c_char : CType
c_char = scalar 1

abbrev pub c_int : CType
c_int = scalar 4

abbrev pub c_longlong : CType
c_longlong = scalar 8

abbrev pub c_short : CType
c_short = scalar 2

abbrev pub c_uchar : CType
c_uchar = scalar 1

abbrev pub c_uint : CType
c_uint = scalar 4

abbrev pub c_ulong : CType
c_ulong = scalar 8

abbrev pub c_ulonglong : CType
c_ulonglong = scalar 8

abbrev pub c_ushort : CType
c_ushort = scalar 2

abbrev pub u64 : CType
u64 = scalar 8

abbrev pub u8 : CType
u8 = scalar 1

abbrev pub usize : CType
usize = scalar 8

abbrev pub pointer : CType
pointer = scalar 8

-- `__BindgenUnionField` holds nothing: `bindgen_union_field` keeps the room.
abbrev pub union_field : CType
union_field = array 0 (scalar 1)
