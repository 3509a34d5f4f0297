-- ===== src/Format/Header.antt =====
-- The words of `volume_header` of include/mfs.h that the code reads or writes.
use tivo_tools.Base.{ℕ}

abbrev pub checksum : ℕ
checksum = 2

abbrev pub total_sectors : ℕ
total_sectors = 41

abbrev pub logstart : ℕ
logstart = 43

abbrev pub lognsectors : ℕ
lognsectors = 44

abbrev pub logstamp : ℕ
logstamp = 45

abbrev pub zonemap : ℕ
zonemap = 49
