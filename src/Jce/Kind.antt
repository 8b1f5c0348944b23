-- ===== src/Jce/Kind.antt =====
-- crates/qq-online/src/push/jce: the kinds of values.
use lirvena.Base.{ℕ}

abbrev pub byte : ℕ
byte = 0

abbrev pub short : ℕ
short = 1

abbrev pub int : ℕ
int = 2

abbrev pub long : ℕ
long = 3

abbrev pub string_one : ℕ
string_one = 6

abbrev pub string_four : ℕ
string_four = 7

abbrev pub map : ℕ
map = 8

abbrev pub list : ℕ
list = 9

abbrev pub struct_begin : ℕ
struct_begin = 10

abbrev pub struct_end : ℕ
struct_end = 11

abbrev pub zero : ℕ
zero = 12

abbrev pub simple_list : ℕ
simple_list = 13
