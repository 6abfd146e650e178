-- ===== src/Core/Tag.antt =====
-- include/dlms/core/types.hpp: the enumeration `DlmsTag`, each name with its code.
use dlms_cosem_cpp.Base.{ℕ}

abbrev pub null : ℕ
null = 0

abbrev pub array : ℕ
array = 1

abbrev pub structure : ℕ
structure = 2

abbrev pub boolean : ℕ
boolean = 3

abbrev pub bit_string : ℕ
bit_string = 4

abbrev pub double_long : ℕ
double_long = 5

abbrev pub double_long_unsigned : ℕ
double_long_unsigned = 6

abbrev pub octet_string : ℕ
octet_string = 9

abbrev pub visible_string : ℕ
visible_string = 10

abbrev pub utf8_string : ℕ
utf8_string = 12

abbrev pub bcd : ℕ
bcd = 13

abbrev pub integer : ℕ
integer = 15

abbrev pub long : ℕ
long = 16

abbrev pub unsigned_integer : ℕ
unsigned_integer = 17

abbrev pub unsigned_long : ℕ
unsigned_long = 18

abbrev pub compact_array : ℕ
compact_array = 19

abbrev pub long64 : ℕ
long64 = 20

abbrev pub unsigned_long64 : ℕ
unsigned_long64 = 21

abbrev pub enum : ℕ
enum = 22

abbrev pub float32 : ℕ
float32 = 23

abbrev pub float64 : ℕ
float64 = 24

abbrev pub date_time : ℕ
date_time = 25

abbrev pub date : ℕ
date = 26

abbrev pub time : ℕ
time = 27

abbrev pub dont_care : ℕ
dont_care = 255
