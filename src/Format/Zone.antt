-- ===== src/Format/Zone.antt =====
-- The words of `zone_header` of include/zonemap.h, 32 bits each.
use tivo_tools.Base.{ℕ}

abbrev pub sector : ℕ
sector = 0

abbrev pub sbackup : ℕ
sbackup = 1

abbrev pub length : ℕ
length = 2

abbrev pub next : ℕ
next = 3

abbrev pub zone_type : ℕ
zone_type = 8

abbrev pub logstamp : ℕ
logstamp = 9

abbrev pub checksum : ℕ
checksum = 10

abbrev pub first : ℕ
first = 11

abbrev pub last : ℕ
last = 12

abbrev pub size : ℕ
size = 13

abbrev pub min : ℕ
min = 14

abbrev pub free : ℕ
free = 15

abbrev pub zero_word : ℕ
zero_word = 16

abbrev pub num : ℕ
num = 17
